-- ===== src/Core/Tests.antt =====
-- Runs of the sessions of auth/src/core on the host of `Core/Sample`.
use text.Mathlib.TextPositions.{eq_refl}
use nestjs_yalc.Prelude.{
  ◌≡◌, refl, ap, subst, sym, ◌∙◌, Bool, true, false, Bool-cases, inl, inr, Option, none, some, List,
  [], ◌∷◌, String, arith,
}
use nestjs_yalc.Js.Value.{string, number, nat, callable}
use nestjs_yalc.Js.Base64.{base64url}
use nestjs_yalc.Js.Json.{canonical}
use nestjs_yalc.Core.Errors.{ok, err, session_denied, invalid_input}
use nestjs_yalc.Core.Types.{
  cookie, TokenEntry, current, rotated, SessionRecord, SessionEvent, session_created,
  session_refreshed, EventKind, IssuedSession,
}
use nestjs_yalc.Core.Exec.{◌>>=◌, require}
use nestjs_yalc.Core.Validation.{Operation, text_of, fits, verified_identity, context_for}
use nestjs_yalc.Core.Validation.Contexts.{
  IsAdmissible, context_value, context_for-IsAdmissible, context_for-context_value,
}
use nestjs_yalc.Core.Validation.Identities.{
  IsVerified, identity_value, verified_identity-IsVerified, verified_identity-identity_value,
}
use nestjs_yalc.Core.Sessions.{profile}
use nestjs_yalc.Core.Sessions.Login.{login}
use nestjs_yalc.Core.Sessions.Login.Issue.{Issued, login-Issued}
use nestjs_yalc.Core.Sessions.Refresh.{refresh, refresh_in, reused}
use nestjs_yalc.Core.Sessions.Authenticate.{authenticate, authenticate_in}
use nestjs_yalc.Core.Sessions.Atomic.{Transacted}
use nestjs_yalc.Core.Sessions.Checked.{Checked}
use nestjs_yalc.Core.Sessions.Revisions.{Revoked}
use nestjs_yalc.Core.Sessions.Authenticate.Outcome.{Seen, authenticate-Transacted}
use nestjs_yalc.Core.Sessions.Refresh.Rotation.{Renewed, refresh-Transacted, reuse-Revoked}
use nestjs_yalc.Core.Sessions.Refresh.Reuse.{Keeps, reuse_denies}
use nestjs_yalc.Core.Sessions.Logout.{logout}
use nestjs_yalc.Core.Sessions.Logout.Ending.{Ended, logout-Transacted}
use nestjs_yalc.Core.Sessions.RevokeAll.{revoke_all}
use nestjs_yalc.Core.Sessions.RevokeAll.Revocations.{RevokedAll, revoke_all-RevokedAll}
use nestjs_yalc.Core.Config.{AuthCoreOptions, Settings, settings_of}
use nestjs_yalc.Core.Sample.{
  Memory, memory_tx, memory_store, first, consed, replace, is_session, with_sessions,
  run_in_memory-IsTransaction, ada, sample, post, login_value, token_value, empty,
}

abbrev session_id : String
session_id = "AAAAAAAAAAAAAAAAAAAAAAAAAAAAAAAAAAAAAAAAAAA"

abbrev token : String
token = "AQAAAAAAAAAAAAAAAAAAAAAAAAAAAAAAAAAAAAAAAAA"

abbrev session : SessionRecord
session = record {
  namespace = "app";
  session_id = session_id;
  account_id = "acc";
  issuer = "https://id.example";
  subject = "ada";
  provider_id = "main";
  auth_time = 5;
  methods = "pwd" ∷ [];
  transport = cookie;
  created_at = 10;
  last_seen_at = 10;
  expires_at = 1010;
  csrf_hash = post.csrf;
  revoked_at = none;
  revision = 1;
}

abbrev entry : TokenEntry
entry = record { namespace = "app"; token_hash = token; session_id = session_id; state = current }

abbrev created : SessionEvent
created = record {
  event_id = "[\"app\",\"AAAAAAAAAAAAAAAAAAAAAAAAAAAAAAAAAAAAAAAAAAA\",1,\"session_created\"]";
  namespace = "app";
  kind = session_created;
  at = 10;
  session_id = session_id;
  revision = 1;
  reason = "login";
}

-- The store after the login.
abbrev logged_in : Memory
logged_in = record {
  tokens = entry ∷ [];
  sessions = session ∷ [];
  events = created ∷ [];
  draws = 3;
  clock = 10;
}

login_example :
    login sample login_value empty
    ≡ (ok (record { token = token; csrf_token = post.csrf; profile = profile session }), logged_in)
unfolding login ◌>>=◌ require base64url canonical
login_example = refl

login-Issued_example :
    Issued sample memory_store login_value
      (record { token = token; csrf_token = post.csrf; profile = profile session })
      empty
      logged_in
login-Issued_example =
    login-Issued sample memory_store run_in_memory-IsTransaction login_value empty login_example

-- Ten milliseconds later.
abbrev later : Memory
later = record logged_in { clock = 20 }

abbrev seen : SessionRecord
seen = record session { last_seen_at = 20 }

authenticate_example :
    authenticate sample (token_value token) later
    ≡ (ok (profile session), record later { sessions = seen ∷ [] })
unfolding authenticate ◌>>=◌ require
authenticate_example = refl

authenticate-Transacted_example :
    Transacted sample memory_store Operation.authenticate
      (Seen sample)
      (token_value token)
      (profile session)
      later
      (record later { sessions = seen ∷ [] })
authenticate-Transacted_example =
    authenticate-Transacted sample memory_store run_in_memory-IsTransaction (token_value token)
      later authenticate_example

abbrev next_token : String
next_token = "AwAAAAAAAAAAAAAAAAAAAAAAAAAAAAAAAAAAAAAAAAA"

abbrev renewed : SessionRecord
renewed = record seen { revision = 2 }

abbrev retired : TokenEntry
retired = record entry { state = rotated }

abbrev refreshed : SessionEvent
refreshed = record {
  event_id = "[\"app\",\"AAAAAAAAAAAAAAAAAAAAAAAAAAAAAAAAAAAAAAAAAAA\",2,\"session_refreshed\"]";
  namespace = "app";
  kind = session_refreshed;
  at = 20;
  session_id = session_id;
  revision = 2;
  reason = "refresh";
}

-- The store after the refresh.
abbrev renewed_memory : Memory
renewed_memory = record {
  tokens = record entry { token_hash = next_token } ∷ retired ∷ [];
  sessions = renewed ∷ [];
  events = refreshed ∷ created ∷ [];
  draws = 4;
  clock = 20;
}

abbrev renewed_session : IssuedSession
renewed_session = record { token = next_token; csrf_token = post.csrf; profile = profile renewed }

refresh_example : refresh sample (token_value token) later ≡ (ok renewed_session, renewed_memory)
unfolding refresh ◌>>=◌ require base64url canonical
refresh_example = refl

refresh-Transacted_example :
    Transacted sample memory_store Operation.refresh
      (Renewed sample)
      (token_value token)
      renewed_session
      later
      renewed_memory
refresh-Transacted_example =
    refresh-Transacted sample memory_store run_in_memory-IsTransaction (token_value token) later
      refresh_example

-- The first token is used again.
abbrev reused_memory : Memory
reused_memory = (refresh_in sample token post 20 memory_tx renewed_memory).1

reused_example :
    refresh_in sample token post 20 memory_tx renewed_memory ≡ (ok reused, reused_memory)
unfolding refresh_in ◌>>=◌ require fits
reused_example = refl

reuse-Revoked_example :
    (old : TokenEntry) × (it : SessionRecord) × (middle : Memory) × Checked sample memory_tx token
      post 20 old it renewed_memory middle
    × (old.state ≡ rotated)
    × Revoked sample memory_tx it 20 EventKind.session_reused "refresh_reuse" middle reused_memory
reuse-Revoked_example = reuse-Revoked sample memory_tx token post 20 renewed_memory reused_example

some-injective : {A : Type 0} {a b : A} → some a ≡ some b → a ≡ b
some-injective e = cc

first-consed :
    {A : Type 0} (test : A → Bool) (new a : A) (replaced : Option (List A)) {list : List A}
    → test a ≡ false
    → ((rest : List A) → replaced ≡ some rest → first test rest ≡ some new)
    → consed a replaced ≡ some list
    → first test list ≡ some new
first-consed test new a none other there e = cc
first-consed test new a (some rest) other there e =
    subst (λ x. first test x ≡ some new) (some-injective e) (rw (other, first) (there rest refl))

first-replace :
    {A : Type 0} (test : A → Bool) (new : A) (old : List A) (list : List A)
    → test new ≡ true
    → replace test new old ≡ some list
    → first test list ≡ some new
first-replace test new [] list fits' e = cc
first-replace test new (a ∷ rest) list fits' e = elim (Bool-cases (test a)) [
  | inl here ↦
      let same : some (new ∷ rest) ≡ some list = (rw (here, replace) refl) ∙ e in
      subst (λ x. first test x ≡ some new) (some-injective same) (rw (fits', first) refl)
  | inr other ↦
      let later : consed a (replace test new rest) ≡ some list = (rw (other, replace) refl) ∙ e in
      first-consed test new a (replace test new rest) other
        (λ list' e'. first-replace test new rest list' fits' e') later
]

with_sessions_stores :
    (it : SessionRecord) (w : Memory) (sessions : Option (List SessionRecord)) {v : Memory}
    → replace (is_session it.namespace it.session_id) it w.sessions ≡ sessions
    → with_sessions w sessions ≡ (some tt, v)
    → first (is_session it.namespace it.session_id) v.sessions ≡ some it
with_sessions_stores it w none e e' =
    let bad = ap (λ (p : Option (Unit {0}) × Memory). p.0) e' in absurd (cc)
with_sessions_stores it w (some sessions) e e' =
    let end = ap (λ (p : Option (Unit {0}) × Memory). p.1.sessions) e' in
    ap (first (is_session it.namespace it.session_id)) (sym end)
    ∙ first-replace (is_session it.namespace it.session_id) it w.sessions sessions
        (rw (eq_refl it.namespace, eq_refl it.session_id) refl) e

memory_tx-Keeps : Keeps memory_tx
memory_tx-Keeps = record {
  session_in = λ w namespace id. first (is_session namespace id) w.sessions;
  get_session_reads = λ namespace id w e.
      some-injective (sym (ap (λ (p : Option (Option SessionRecord) × Memory). p.0) e));
  get_token_keeps = λ namespace hash w e.
      let end = ap (λ (p : Option (Option TokenEntry) × Memory). p.1) e in
      ap (λ u namespace' id. first (is_session namespace' id) (Memory.sessions u)) (sym end);
  put_session_stores = λ it w e. with_sessions_stores it w _ refl e;
  put_event_keeps = λ event w e.
      let end = ap (λ (p : Option Bool × Memory). p.1) e in
      ap (λ u namespace id. first (is_session namespace id) (Memory.sessions u)) (sym end);
}

reuse_denies_example :
    (authenticate_in sample next_token post 20 memory_tx reused_memory).0 ≡ err session_denied
unfolding refresh_in ◌>>=◌ require fits
reuse_denies_example =
    reuse_denies sample memory_tx memory_tx-Keeps token post 20 renewed_memory retired next_token
      post 20 (record entry { token_hash = next_token }) refl reused_example refl refl refl

logout_example :
    logout sample (token_value token) later ≡ (ok true, (logout sample (token_value token) later).1)
unfolding logout ◌>>=◌ require
logout_example = refl

logout-Transacted_example :
    Transacted sample memory_store Operation.logout
      (λ tx token' context at b w v. Ended sample tx token' context at w v)
      (token_value token)
      true
      later
      (logout sample (token_value token) later).1
logout-Transacted_example =
    logout-Transacted sample memory_store run_in_memory-IsTransaction (token_value token) later
      logout_example

revoke_all_example :
    revoke_all sample (string "acc") later ≡ (ok 1, (revoke_all sample (string "acc") later).1)
unfolding revoke_all ◌>>=◌ require
revoke_all_example = refl

revoke_all-RevokedAll_example :
    (account_id : String) × (text_of (string "acc") 512 invalid_input ≡ ok account_id)
    × RevokedAll sample memory_store account_id 1 later (revoke_all sample (string "acc") later).1
revoke_all-RevokedAll_example =
    revoke_all-RevokedAll sample memory_store run_in_memory-IsTransaction (string "acc") later
      revoke_all_example

post-IsAdmissible : IsAdmissible Operation.refresh ("https://app.example" ∷ []) post
post-IsAdmissible = record { capitals = refl; changes = refl; same_origin = refl }

context_for-context_value_example :
    context_for (context_value post) Operation.refresh ("https://app.example" ∷ []) ≡ ok post
context_for-context_value_example =
    context_for-context_value Operation.refresh ("https://app.example" ∷ []) post post-IsAdmissible

context_read :
    context_for (context_value post) Operation.login ("https://app.example" ∷ []) ≡ ok post
unfolding context_for
context_read = refl

context_for-IsAdmissible_example : IsAdmissible Operation.login ("https://app.example" ∷ []) post
context_for-IsAdmissible_example =
    context_for-IsAdmissible (context_value post) Operation.login ("https://app.example" ∷ [])
      context_read

identity_read : verified_identity (identity_value ada) 10 ≡ ok ada
unfolding verified_identity
identity_read = refl

verified_identity-IsVerified_example : IsVerified 10 ada
verified_identity-IsVerified_example =
    verified_identity-IsVerified (identity_value ada) 10 identity_read

verified_identity-identity_value_example : verified_identity (identity_value ada) 20 ≡ ok ada
unfolding fits
verified_identity-identity_value_example = verified_identity-identity_value 20 ada (record {
  issuer_fits = refl;
  subject_fits = refl;
  past = omega arith;
  safe = omega arith;
  some_method = omega arith;
  few_methods = omega arith;
  methods_fit = refl;
})

abbrev parse_url : String → Option (String × String)
parse_url text = some (text, "https:")

abbrev options : AuthCoreOptions
options = record {
  namespace = string "app";
  absolute_ttl_ms = number (nat 1000);
  idle_ttl_ms = number (nat 100);
  allowed_origins = some (string "https://app.example" ∷ []);
  providers = some ((string "main", callable) ∷ []);
  resolve_identity = callable;
  transaction = callable;
  now = callable;
  random_bytes = callable;
}

abbrev settings : Settings
settings = record {
  namespace = "app";
  absolute_ttl_ms = 1000;
  idle_ttl_ms = 100;
  origins = "https://app.example" ∷ [];
  provider_ids = "main" ∷ [];
}

settings_read : settings_of parse_url options ≡ ok settings
unfolding settings_of fits
settings_read = refl
