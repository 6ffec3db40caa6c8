-- ===== src/Compliance/Samples.antt =====
-- When a rule on a DDS value passes, fails or cannot be answered, once its path has found values.
use lab_monitor.Base.{
  ℕ, zero, suc, ◌+◌, ◌≡◌, ◌≢◌, ◌↔◌, ◌⊎◌, inl, inr, refl, ap, arith, Bool, true, false, Option, none,
  some, List, [], ◌∷◌, All, Text,
}
use lab_monitor.Base.Json.{Expected, JsonLibrary}
use lab_monitor.Types.{CheckStatus}
use lab_monitor.Rule.{Rule, DdsValueRule}
use lab_monitor.Compliance.{error}
use lab_monitor.Compliance.Dds.{
  Scan, first_of, scan_next, scan, matches, scanned, check_values, observed_text,
}

-- One of the list has the property.
abbrev pub Any : {A : Type 0} → (A → Type 0) → List A → Type 0
Any P [] = ⊥
Any P (x ∷ xs) = P x ⊎ Any P xs

module _ (J : JsonLibrary) (payload : DdsValueRule) where
  abbrev pub Matches : J.Json → Type 0
  Matches v = matches J v payload ≡ Expected.value true

  abbrev pub IsIncomparable : J.Json → Type 0
  IsIncomparable v = (e : Text) × (matches J v payload ≡ Expected.unexpected e)

  hit-Any :
      (values : List J.Json) (first : Option Text) (comparable : ℕ)
      → scan J payload values first comparable ≡ Scan.hit
      → Any Matches values
  unfolding scan
  hit-Any [] first comparable h = cc
  hit-Any (v ∷ values) first comparable h = go (matches J v payload) refl (hit-Any values) h
    where
      go :
          (m : Expected Bool Text)
          → matches J v payload ≡ m
          → ((f : Option Text) (c : ℕ) → scan J payload values f c ≡ Scan.hit → Any Matches values)
          → scan_next J (scan J payload values) first comparable m ≡ Scan.hit
          → Any Matches (v ∷ values)
      go (Expected.unexpected e) f rec k = inr (rec (first_of first e) comparable k)
      go (Expected.value true) f rec k = inl f
      go (Expected.value false) f rec k = inr (rec first (comparable + 1) k)

  Any-hit :
      (values : List J.Json) (first : Option Text) (comparable : ℕ)
      → Any Matches values
      → scan J payload values first comparable ≡ Scan.hit
  unfolding scan
  Any-hit [] first comparable h = absurd h
  Any-hit (v ∷ values) first comparable (inl h) = rw h
  Any-hit (v ∷ values) first comparable (inr h) =
      go (matches J v payload) (λ f c. Any-hit values f c h)
    where
      go :
          (m : Expected Bool Text)
          → ((f : Option Text) (c : ℕ) → scan J payload values f c ≡ Scan.hit)
          → scan_next J (scan J payload values) first comparable m ≡ Scan.hit
      go (Expected.unexpected e) rec = rec (first_of first e) comparable
      go (Expected.value true) rec = refl
      go (Expected.value false) rec = rec first (comparable + 1)

  none_comparable :
      (values : List J.Json) (first last : Option Text) (comparable : ℕ)
      → scan J payload values first comparable ≡ Scan.ended last 0
      → All IsIncomparable values × (comparable ≡ 0)
  unfolding scan
  none_comparable [] first last comparable h = (tt, ground arith)
  none_comparable (v ∷ values) first last comparable h =
      go (matches J v payload) refl (λ f c. none_comparable values f last c) h
    where
      go :
          (m : Expected Bool Text)
          → matches J v payload ≡ m
          → ((f : Option Text) (c : ℕ)
              → scan J payload values f c ≡ Scan.ended last 0
              → All IsIncomparable values × (c ≡ 0))
          → scan_next J (scan J payload values) first comparable m ≡ Scan.ended last 0
          → All IsIncomparable (v ∷ values) × (comparable ≡ 0)
      go (Expected.unexpected e) f rec k =
          let (rest, zero_left) = rec (first_of first e) comparable k in (((e, f), rest), zero_left)
      go (Expected.value true) f rec k = cc
      go (Expected.value false) f rec k = absurd (omega (arith, (rec first (comparable + 1) k).1))

  All-incomparable :
      (values : List J.Json) (e : Text)
      → All IsIncomparable values
      → scan J payload values (some e) 0 ≡ Scan.ended (some e) 0
  unfolding scan
  All-incomparable [] e h = refl
  All-incomparable (v ∷ values) e ((f, g), h) = rw g (All-incomparable values e h)

  scanned_pass :
      (rule : Rule) (o : Text) (s : Scan)
      → (scanned J rule payload o s).status ≡ CheckStatus.pass
      → s ≡ Scan.hit
  unfolding error
  scanned_pass rule o Scan.hit h = refl
  scanned_pass rule o (Scan.ended none zero) h = cc
  scanned_pass rule o (Scan.ended none (suc n)) h = cc
  scanned_pass rule o (Scan.ended (some e) zero) h = cc
  scanned_pass rule o (Scan.ended (some e) (suc n)) h = cc

  scanned_error :
      (rule : Rule) (o : Text) (s : Scan)
      → (scanned J rule payload o s).status ≡ CheckStatus.error
      → (e : Text) × (s ≡ Scan.ended (some e) 0)
  unfolding error
  scanned_error rule o Scan.hit h = cc
  scanned_error rule o (Scan.ended none zero) h = cc
  scanned_error rule o (Scan.ended none (suc n)) h = cc
  scanned_error rule o (Scan.ended (some e) zero) h = (e, refl)
  scanned_error rule o (Scan.ended (some e) (suc n)) h = cc

  -- A rule on a DDS value whose path has found values passes exactly when one of them matches, and
  -- is an error exactly when none of them can be compared; otherwise it fails.
  pub check_values-status :
      (rule : Rule) (v : J.Json) (values : List J.Json)
      → let status = (check_values J rule payload (Expected.value (v ∷ values))).status in
        ((status ≡ CheckStatus.pass) ↔ Any Matches (v ∷ values))
        × ((status ≡ CheckStatus.error) ↔ All IsIncomparable (v ∷ values))
        × (status ≢ CheckStatus.not_applicable)
  unfolding scan error
  check_values-status rule v values = (
    (
      λ h.
          hit-Any (v ∷ values) none 0 (
            scanned_pass rule (observed_text J (v ∷ values)) (scan J payload (v ∷ values) none 0)
              h),
      λ h.
          ap (λ s. (scanned J rule payload (observed_text J (v ∷ values)) s).status)
            (Any-hit (v ∷ values) none 0 h),
    ),
    (
      λ h.
          let (e, ended) =
            scanned_error rule (observed_text J (v ∷ values)) (scan J payload (v ∷ values) none 0)
              h in
          (none_comparable (v ∷ values) none (some e) 0 ended).0,
      λ ((e, f), h).
          ap (λ s. (scanned J rule payload (observed_text J (v ∷ values)) s).status)
            (first_incomparable e f h),
    ),
    applicable (scan J payload (v ∷ values) none 0),
  )
    where
      first_incomparable :
          (e : Text)
          → matches J v payload ≡ Expected.unexpected e
          → All IsIncomparable values
          → scan J payload (v ∷ values) none 0 ≡ Scan.ended (some e) 0
      first_incomparable e f h = rw f (All-incomparable values e h)

      applicable :
          (s : Scan)
          → (scanned J rule payload (observed_text J (v ∷ values)) s).status
            ≢ CheckStatus.not_applicable
      applicable Scan.hit h = cc
      applicable (Scan.ended none zero) h = cc
      applicable (Scan.ended none (suc n)) h = cc
      applicable (Scan.ended (some e) zero) h = cc
      applicable (Scan.ended (some e) (suc n)) h = cc
