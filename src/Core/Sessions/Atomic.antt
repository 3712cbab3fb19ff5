-- ===== src/Core/Sessions/Atomic.antt =====
-- What `atomic` of auth/src/core/auth-core.ts has done when it returns, for a store whose transaction
-- runs its work and returns what the work returns.
use nestjs_yalc.Prelude.{ℕ, ◌≤◌, ◌≡◌, ap, some, String}
use nestjs_yalc.Js.Value.{Value, number, nat}
use nestjs_yalc.Directory.Validation.Scalars.{max_safe_integer}
use nestjs_yalc.Core.Errors.{Result, ok, session_expired}
use nestjs_yalc.Core.Types.{RequestContext}
use nestjs_yalc.Core.Validation.{Operation}
use nestjs_yalc.Core.Inputs.{token_input}
use nestjs_yalc.Core.Exec.{Exec, lift, ◌>>=◌}
use nestjs_yalc.Core.Exec.After.{After, exact_after, bind_after, then_lift}
use nestjs_yalc.Core.Host.{
  SessionTransaction, Outcome, returned, threw, threw_other, Host, Store, RanTo, IsTransaction,
}
use nestjs_yalc.Core.Sessions.{concluded, atomic, time}
use nestjs_yalc.Core.Sessions.Checked.{time_after}

concluded-eq-ok :
    {A : Type 0} (outcome : Outcome A) {a : A} → concluded outcome ≡ ok a → outcome ≡ returned a
concluded-eq-ok (returned b) e = cc
concluded-eq-ok (threw code) e = cc
concluded-eq-ok threw_other e = cc

pub atomic_after :
    {W : Type 0} (host : Host W) (store : Store W)
    → IsTransaction host.transaction store
    → {A : Type 0} (work : SessionTransaction W → Exec W A) (w : W)
    → After (atomic host work) w (λ a v. RanTo store work a w v)
unfolding atomic
atomic_after {W} host store law {A} work w = exact_after λ a v e. law.returns work w (λ i. (
  concluded-eq-ok (host.transaction A work w).0 (ap (λ (p : Result A × W). p.0) e) i,
  ap (λ (p : Result A × W). p.1) e i,
))

module _ {W : Type 0} (host : Host W) (store : Store W) where
  -- The input was read for the operation, the clock of the world `w` of the call showed a time, and
  -- then the transaction that began there did what `Q` says and returned `a`, and ended in `v`.
  pub record Transacted {A : Type 0} (operation : Operation)
      (Q : SessionTransaction W → String → RequestContext → ℕ → A → W → W → Type 0) (raw : Value)
      (a : A) (w v : W) : Type 0 where
    pub token : String
    pub context : RequestContext
    pub at : ℕ
    pub shown_to : W
    pub after : W
    pub read : token_input host.origins raw operation ≡ ok (token, context)
    pub shown : host.now w ≡ (some (number (nat at)), shown_to)
    pub safe : at ≤ max_safe_integer
    pub done : Q store.tx token context at a (store.begin shown_to) after
    pub committed : store.commit after ≡ v

  -- The three operations that read a token and a context begin alike.
  pub token_work_after :
      IsTransaction host.transaction store
      → {A : Type 0} (operation : Operation)
        {Q : SessionTransaction W → String → RequestContext → ℕ → A → W → W → Type 0}
        (work : String → RequestContext → ℕ → SessionTransaction W → Exec W A)
      → ((token : String) (context : RequestContext) (at : ℕ) (tx : SessionTransaction W) (w : W)
          → After (work token context at tx) w (λ a v. Q tx token context at a w v))
      → (raw : Value) (w : W)
      → After
          (lift (token_input host.origins raw operation) >>= λ input.
            time host session_expired >>= λ at. atomic host (work input.0 input.1 at))
          w
          (λ a v. Transacted operation Q raw a w v)
  token_work_after law operation work does raw w =
      then_lift (token_input host.origins raw operation) λ input read. bind_after (
        exact_after λ at u e.
          let (shown, small) = (time_after host session_expired w).holds e in
          exact_after λ a v e'.
            let ran = (atomic_after host store law (work input.0 input.1 at) u).holds e' in
            record {
              token = input.0;
              context = input.1;
              at = at;
              shown_to = u;
              after = ran.after;
              read = read;
              shown = shown;
              safe = small;
              done = (does input.0 input.1 at store.tx (store.begin u)).holds ran.ran;
              committed = ran.committed;
            })
