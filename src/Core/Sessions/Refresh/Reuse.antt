-- ===== src/Core/Sessions/Refresh/Reuse.antt =====
-- What becomes of a session whose rotated token is used again, in auth/src/core/auth-core.ts.
use nestjs_yalc.Prelude.{
  ℕ, ◌+◌, ◌≡◌, refl, ap, sym, ◌∙◌, Bool, Bool-cases, inl, inr, true, false, Option, some, String,
  ◌==◌, arith,
}
use nestjs_yalc.Core.Errors.{ok, err, session_denied}
use nestjs_yalc.Core.Types.{RequestContext, TokenEntry, SessionRecord, SessionEvent, session_reused}
use nestjs_yalc.Core.Exec.{lift, require, raise, pure, port, port_call, choose, ◌>>=◌}
use nestjs_yalc.Core.Host.{SessionTransaction, Host}
use nestjs_yalc.Core.Sessions.{checked_session, is_ours, is_some, revoked}
use nestjs_yalc.Core.Sessions.Revisions.{Revoked}
use nestjs_yalc.Core.Sessions.Authenticate.{authenticate_in}
use nestjs_yalc.Core.Sessions.Refresh.{reused, refresh_in}
use nestjs_yalc.Core.Sessions.Refresh.Rotation.{reuse-Revoked}

-- The store keeps the sessions that are put into it, under the namespace and the identifier that they
-- name. Nothing is said of a call that does not answer: an update of a session that is missing fails.
pub record Keeps {W : Type 0} (tx : SessionTransaction W) : Type 0 where
  pub session_in : W → String → String → Option SessionRecord
  pub get_session_reads :
      (namespace id : String) (w : W) {found : Option SessionRecord} {v : W}
      → tx.get_session namespace id w ≡ (some found, v)
      → found ≡ session_in w namespace id
  pub get_token_keeps :
      (namespace hash : String) (w : W) {found : Option TokenEntry} {v : W}
      → tx.get_token namespace hash w ≡ (some found, v)
      → session_in v ≡ session_in w
  pub put_session_stores :
      (session : SessionRecord) (w : W) {v : W}
      → tx.put_session session w ≡ (some tt, v)
      → session_in v session.namespace session.session_id ≡ some session
  pub put_event_keeps :
      (event : SessionEvent) (w : W) {written : Bool} {v : W}
      → tx.put_event event w ≡ (some written, v)
      → session_in v ≡ session_in w

abbrev session_of : Option (Option TokenEntry) → String
session_of (some (some entry)) = entry.session_id
session_of _ = ""

module _ {W : Type 0} (host : Host W) (tx : SessionTransaction W) (keeps : Keeps tx) where
  revoked_in :
      (session : SessionRecord) (at : ℕ) (reason : String) (w : W) {v : W}
      → Revoked host tx session at session_reused reason w v
      → keeps.session_in v session.namespace session.session_id
        ≡ some (revoked session at (session.revision + 1))
  revoked_in session at reason w r =
      ap (λ (f : String → String → Option SessionRecord). f session.namespace session.session_id)
        (keeps.put_event_keeps _ r.middle r.told)
      ∙ keeps.put_session_stores (revoked session at (session.revision + 1)) w r.saved

  -- The session that is read after the token was is the one that was stored.
  read_as_stored :
      {namespace id hash : String} {v v' v'' : W} {entry : TokenEntry}
      {found : Option SessionRecord} {session : SessionRecord}
      → namespace ≡ host.namespace
      → id ≡ entry.session_id
      → tx.get_token host.namespace hash v ≡ (some (some entry), v')
      → tx.get_session host.namespace entry.session_id v' ≡ (some found, v'')
      → keeps.session_in v namespace id ≡ some session
      → found ≡ some session
  read_as_stored {v = v} {entry = entry} here same found read kept =
      keeps.get_session_reads host.namespace entry.session_id _ read
      ∙ ap (λ (f : String → String → Option SessionRecord). f host.namespace entry.session_id)
          (keeps.get_token_keeps host.namespace _ v found)
      ∙ sym (λ i. keeps.session_in v (here i) (same i))
      ∙ kept

  -- A token of a session that is stored as revoked is denied.
  authenticate_in_denied :
      (token : String) (context : RequestContext) (at revoked_at : ℕ) (w : W) {v : W} {v' : W}
      (entry : TokenEntry) (session : SessionRecord)
      → tx.get_token host.namespace (host.sha256_hex token) w ≡ (some (some entry), v)
      → tx.get_session host.namespace entry.session_id v ≡ (some (some session), v')
      → session.revoked_at ≡ some revoked_at
      → (authenticate_in host token context at tx w).0 ≡ err session_denied
  unfolding authenticate_in checked_session ◌>>=◌ require lift port_call port pure raise choose
  authenticate_in_denied token context at revoked_at w entry session e₁ e₂ e₃ =
      let dead : is_some session.revoked_at ≡ true = ap is_some e₃ in
      let not_ours : is_ours host session entry context ≡ false = ground (arith, dead) in
      elim (Bool-cases (entry.namespace == host.namespace)) [
        | inl same ↦ rw (e₁, same, e₂, not_ours) refl
        | inr other ↦ rw (e₁, other) refl
      ]

  -- With a store that keeps the sessions that it answers to have saved: when the work of a refresh
  -- has found a rotated token used again, every token of the same session, at any time and in any
  -- context, is denied by `authenticate` afterwards, if the store answers when the token and its
  -- session are read.
  pub reuse_denies :
      (token : String) (context : RequestContext) (at : ℕ) (w : W) {u v : W} (entry : TokenEntry)
      (token' : String) (context' : RequestContext) (at' : ℕ) {v' v'' : W} (entry' : TokenEntry)
      {read : Option SessionRecord}
      → tx.get_token host.namespace (host.sha256_hex token) w ≡ (some (some entry), u)
      → refresh_in host token context at tx w ≡ (ok reused, v)
      → tx.get_token host.namespace (host.sha256_hex token') v ≡ (some (some entry'), v')
      → tx.get_session host.namespace entry'.session_id v' ≡ (some read, v'')
      → entry'.session_id ≡ entry.session_id
      → (authenticate_in host token' context' at' tx v).0 ≡ err session_denied
  reuse_denies token context at w {u} {v} entry token' context' at' {v'} {v''} entry' found ran
        found' answered same =
      let (entry₀, session, middle, checked, dead, done) =
        reuse-Revoked host tx token context at w ran in
      let alike : entry₀.session_id ≡ entry.session_id =
        ap (λ p. session_of p.0) (sym checked.found ∙ found) in
      let id : session.session_id ≡ entry'.session_id = checked.of_entry ∙ alike ∙ sym same in
      let dead' =
        read_as_stored checked.session_here id found' answered
          (revoked_in session at "refresh_reuse" middle done) in
      authenticate_in_denied token' context' at' at v entry'
        (revoked session at (session.revision + 1)) found'
        (answered ∙ ap (λ o. (some o, v'')) dead') refl
