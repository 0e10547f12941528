-- ===== src/Prelude/Exec.antt =====
-- Methods that change a state and may fail: what was written before a `?` returned an error stays
-- written, so the state comes back beside the error too.
use mathlib.Core.Bool.{Bool, true, false}
use mathlib.Core.Option.{Option, none, some}
use mathlib.Core.Path.{◌≡◌, refl}
use mathlib.Core.Logic.{◌⊎◌, inl, inr}

pub data Error : Type 0 where
  wrong_peer bad_counter engine_gone index_out_of_bounds : Error
  unavailable duplicate_id bad_payload bad_key : Error
  file_not_found unknown_message unexpected_response no_variant : Error
  bad_signature bad_secret : Error
  failed_to_create_new failed_to_decode_txt_record failed_to_send failed_to_download : Error
  panicked : Error
  stream_refused wrong_frame unexpected_eof undecodable dial_failed no_delegate : Error

pub data Result {ℓ} (A : Type ℓ) : Type ℓ where
  ok : A → Result A
  err : Error → Result A

pub Result-cases {ℓ} :
    {A : Type ℓ} (r : Result A) → ((a : A) × (r ≡ ok a)) ⊎ ((e : Error) × (r ≡ err e))
Result-cases (ok a) = inl (a, refl)
Result-cases (err e) = inr (e, refl)

abbrev pub Exec : Type 0 → Type 0 → Type 0
Exec S A = S → Result A × S

module _ {S A : Type 0} where
  abbrev pub pure : A → Exec S A
  pure a s = (ok a, s)

  abbrev pub fail : Error → Exec S A
  fail e s = (err e, s)

  abbrev pub lift : Result A → Exec S A
  lift r s = (r, s)

  abbrev pub gets : (S → A) → Exec S A
  gets f s = (ok (f s), s)

  -- `o.ok_or(e)?`
  abbrev pub or_fail : Option A → Error → Exec S A
  or_fail none e s = (err e, s)
  or_fail (some a) e s = (ok a, s)

module _ {S : Type 0} where
  abbrev pub modify : (S → S) → Exec S (Unit {0})
  modify f s = (ok tt, f s)

  abbrev pub check : Bool → Error → Exec S (Unit {0})
  check true e s = (ok tt, s)
  check false e s = (err e, s)

module _ {S A B : Type 0} where
  abbrev continue : Result A → (A → Exec S B) → Exec S B
  continue (ok a) f s = f a s
  continue (err e) f s = (err e, s)

  infixl 5 ◌>>=◌ ◌>>◌
  abbrev pub ◌>>=◌ : Exec S A → (A → Exec S B) → Exec S B
  ◌>>=◌ m f s = let (r, s') = m s in continue r f s'

  abbrev pub ◌>>◌ : Exec S A → Exec S B → Exec S B
  m >> n = m >>= λ _. n
