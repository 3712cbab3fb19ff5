-- ===== src/Core/Sample.antt =====
-- A host for the tests of auth/src/core, with a store in memory.
use nestjs_yalc.Prelude.{
  ℕ, ◌+◌, ◌≡◌, ap, Bool, true, false, Option, none, some, List, [], ◌∷◌, String, ◌==◌,
  if◌then◌else◌, filter, ◌&&◌,
}
use nestjs_yalc.Js.Value.{
  Value, string, number, nat, object, byte_array, object_prototype, end, property, named,
}
use nestjs_yalc.Core.Errors.{Result, ok, err}
use nestjs_yalc.Core.Types.{
  cookie, RequestContext, VerifiedIdentity, TokenEntry, SessionRecord, SessionEvent,
}
use nestjs_yalc.Core.Validation.Contexts.{context_value}
use nestjs_yalc.Core.Validation.Identities.{identity_value}
use nestjs_yalc.Core.Exec.{Exec, Port}
use nestjs_yalc.Core.Host.{SessionTransaction, Outcome, returned, threw, Host, Store, IsTransaction}

-- The stored tokens, sessions and events, the last first, and how often bytes were drawn.
pub record Memory : Type 0 where
  pub tokens : List TokenEntry
  pub sessions : List SessionRecord
  pub events : List SessionEvent
  pub draws : ℕ
  pub clock : ℕ

abbrev pub first {ℓ} : {A : Type ℓ} → (A → Bool) → List A → Option A
first test [] = none
first test (a ∷ rest) = elim (test a) [ true ↦ some a | false ↦ first test rest ]

abbrev pub consed {ℓ} : {A : Type ℓ} → A → Option (List A) → Option (List A)
consed a none = none
consed a (some rest) = some (a ∷ rest)

-- The first that passes the test is replaced; there has to be one.
abbrev pub replace {ℓ} : {A : Type ℓ} → (A → Bool) → A → List A → Option (List A)
replace test new [] = none
replace test new (a ∷ rest) = elim (test a) [
  | true ↦ some (new ∷ rest)
  | false ↦ consed a (replace test new rest)
]

abbrev pub is_session : String → String → SessionRecord → Bool
is_session namespace id session = session.namespace == namespace && session.session_id == id

abbrev is_token : String → String → TokenEntry → Bool
is_token namespace hash entry = entry.namespace == namespace && entry.token_hash == hash

abbrev pub with_sessions : Memory → Option (List SessionRecord) → Option (Unit {0}) × Memory
with_sessions w none = (none, w)
with_sessions w (some sessions) = (some tt, record w { sessions = sessions })

abbrev with_tokens : Memory → Option (List TokenEntry) → Option (Unit {0}) × Memory
with_tokens w none = (none, w)
with_tokens w (some tokens) = (some tt, record w { tokens = tokens })

abbrev pub memory_tx : SessionTransaction Memory
memory_tx = record {
  get_token = λ namespace hash w. (some (first (is_token namespace hash) w.tokens), w);
  get_session = λ namespace id w. (some (first (is_session namespace id) w.sessions), w);
  put_token =
      λ entry w. with_tokens w (replace (is_token entry.namespace entry.token_hash) entry w.tokens);
  put_session = λ session w.
      with_sessions w
        (replace (is_session session.namespace session.session_id) session w.sessions);
  insert_session = λ session w. (some true, record w { sessions = session ∷ w.sessions });
  insert_token = λ entry w. (some true, record w { tokens = entry ∷ w.tokens });
  put_event = λ event w. (some true, record w { events = event ∷ w.events });
  list_sessions = λ namespace account_id w. (
    some (
        filter (λ session. session.namespace == namespace && session.account_id == account_id)
          w.sessions),
    w,
  );
}

abbrev outcome_of : {A : Type 0} → Result A → Outcome A
outcome_of (ok a) = returned a
outcome_of (err code) = threw code

abbrev pub run_in_memory :
    (A : Type 0) → (SessionTransaction Memory → Exec Memory A) → Memory → Outcome A × Memory
run_in_memory A work w = (outcome_of (work memory_tx w).0, (work memory_tx w).1)

outcome_of-eq-returned : {A : Type 0} (r : Result A) {a : A} → outcome_of r ≡ returned a → r ≡ ok a
outcome_of-eq-returned (ok b) e = cc
outcome_of-eq-returned (err code) e = cc

abbrev pub memory_store : Store Memory
memory_store = record { tx = memory_tx; begin = λ w. w; commit = λ w. w }

pub run_in_memory-IsTransaction : IsTransaction run_in_memory memory_store
run_in_memory-IsTransaction = record {
  returns = λ {A} work w {a} {v} e. record {
    after = (work memory_tx w).1;
    ran =
        let same =
          outcome_of-eq-returned (work memory_tx w).0 (ap (λ (p : Outcome A × Memory). p.0) e) in
        λ i. (same i, (work memory_tx w).1);
    committed = ap (λ (p : Outcome A × Memory). p.1) e;
  };
}

abbrev pub ada : VerifiedIdentity
ada = record { issuer = "https://id.example"; subject = "ada"; auth_time = 5; methods = "pwd" ∷ [] }

abbrev bytes_of : ℕ → List ℕ
bytes_of n =
    n ∷ 0 ∷ 0 ∷ 0 ∷ 0 ∷ 0 ∷ 0 ∷ 0 ∷ 0 ∷ 0 ∷ 0 ∷ 0 ∷ 0 ∷ 0 ∷ 0 ∷ 0 ∷ 0 ∷ 0 ∷ 0 ∷ 0 ∷ 0 ∷ 0 ∷ 0 ∷ 0
    ∷ 0 ∷ 0 ∷ 0 ∷ 0 ∷ 0 ∷ 0 ∷ 0 ∷ 0 ∷ []

abbrev providers : String → Option (Value → Port Memory Value)
providers id = if id == "main" then some (λ proof w. (some (identity_value ada), w)) else none

abbrev pub sample : Host Memory
sample = record {
  namespace = "app";
  origins = "https://app.example" ∷ [];
  absolute_ttl_ms = 1000;
  idle_ttl_ms = 100;
  providers = providers;
  resolve_identity = λ identity w.
      (some (object object_prototype (property (named "accountId") true (string "acc") end)), w);
  transaction = run_in_memory;
  now = λ w. (some (number (nat w.clock)), w);
  random_bytes =
      λ size w. (some (byte_array 0 (bytes_of w.draws)), record w { draws = w.draws + 1 });
  sha256_hex = λ text. text;
}

abbrev pub post : RequestContext
post = record {
  transport = cookie;
  method = "POST";
  origin = some "https://app.example";
  sec_fetch_site = some "same-origin";
  csrf = some "AgAAAAAAAAAAAAAAAAAAAAAAAAAAAAAAAAAAAAAAAAA";
}

abbrev pub login_value : Value
login_value = object object_prototype (
    property (named "providerId") true (string "main") (
      property (named "proof") true (string "pw")
        (property (named "context") true (context_value post) end)))

abbrev pub token_value : String → Value
token_value token = object object_prototype (
    property (named "token") true (string token)
      (property (named "context") true (context_value post) end))

abbrev pub empty : Memory
empty = record { tokens = []; sessions = []; events = []; draws = 0; clock = 10 }
