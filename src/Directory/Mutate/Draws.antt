-- ===== src/Directory/Mutate/Draws.antt =====
-- The identifiers that `draw` of auth/src/directory/directory-core.ts draws.
use nestjs_yalc.Prelude.{
  ℕ, ◌≡◌, refl, ap, ◌∙◌, Option, none, some, List, String, length, arith, subst,
}
use nestjs_yalc.Js.Value.{Value, string}
use nestjs_yalc.Js.Text.{codes}
use nestjs_yalc.Js.Base64.{base64url}
use nestjs_yalc.Js.Base64.RoundTrip.{
  AreBytes, base64url-is_canonical, base64url-id_chars, length-base64url, chars,
}
use nestjs_yalc.Directory.Errors.{ErrorCode, Result, ok, err, fail, invalid_config}
use nestjs_yalc.Directory.Host.{Host}
use nestjs_yalc.Directory.Exec.{Closure}
use nestjs_yalc.Directory.Validation.Scalars.{id, is_id_text}
use nestjs_yalc.Directory.Validation.Shapes.{bytes}
use nestjs_yalc.Directory.Validation.Shapes.Octets.{bytes-eq-ok}
use nestjs_yalc.Directory.Mutate.{draw, drawn_text}

base64url-id_lem :
    (bs : List ℕ) (code : ErrorCode)
    → AreBytes bs
    → length bs ≡ 32
    → id (string (base64url bs)) code ≡ ok (base64url bs)
unfolding id is_id_text
base64url-id_lem bs code below size =
    let count : length (codes (base64url bs)) ≡ 43 = length-base64url bs ∙ ap chars size in
    rw (count, base64url-id_chars bs below, base64url-is_canonical bs below) refl

module _ {W : Type 0} (h : Host W) where
  picked-id :
      (r : Result (List ℕ)) (code : ErrorCode) {s : String}
      → ((bs : List ℕ) → r ≡ ok bs → AreBytes bs × (length bs ≡ 32))
      → elim r [ err e ↦ fail invalid_config | ok bs ↦ ok (base64url bs) ] ≡ ok s
      → id (string s) code ≡ ok s
  picked-id (err fault) code good e = cc
  picked-id (ok bs) code {s} good e =
      let (below, size) = good bs refl in
      let same = base64url-id_lem bs code below size in
      let text : base64url bs ≡ s = cc in subst (λ x. id (string x) code ≡ ok x) text same

  drawn_text-id :
      (answer : Option Value) (code : ErrorCode) {s : String}
      → drawn_text answer ≡ ok s
      → id (string s) code ≡ ok s
  unfolding drawn_text
  drawn_text-id none code e = cc
  drawn_text-id (some raw) code e =
      picked-id (bytes raw 32 32 invalid_config) code
        (λ bs h.
          let (below, low, high) = bytes-eq-ok raw 32 32 invalid_config h in
          (below, omega (arith, low, high)))
        e

  -- Whatever the source of randomness answers: a drawn identifier is one that `id` accepts and
  -- returns unchanged.
  pub draw-id :
      (c : Closure W) (code : ErrorCode) {s : String} {d : Closure W}
      → draw h c ≡ (ok s, d)
      → id (string s) code ≡ ok s
  unfolding draw
  draw-id c code e =
      drawn_text-id (h.random_bytes 32 c.world).0 code
        (ap (λ (p : Result String × Closure W). p.0) e)
