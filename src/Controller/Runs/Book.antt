-- ===== src/Controller/Runs/Book.antt =====
-- The runs that the server keeps, of apps/server/server_controller.cpp, over any course of events.
use lab_monitor.Base.{
  ℕ, zero, suc, ◌≤◌, ◌≡◌, refl, ap, ◌∙◌, sym, subst, arith, inl, inr, true, false, some, List, [],
  ◌∷◌, ◌++◌, map, ℤ, ltb_ℤ, length, Bool-cases, All, All-append, Text, str_eq, str_eq_iff,
  str_eq_comm, member, member-append, Distinct,
}
use lab_monitor.Bundle.Ids.{remove, member-remove, length-remove}
use lab_monitor.Dispatch.{ScriptRun}
use lab_monitor.Controller.Runs.{find_run, write_run, is_found, new_id, without_run, runs_from}
use lab_monitor.Controller.Runs.Start.{IsDecided}

abbrev pub run_ids : List ScriptRun → List Text
run_ids runs = map (λ (r : ScriptRun). r.run_id) runs

-- No target of the run is pending.
abbrev pub IsDecidedRun : ScriptRun → Type 0
IsDecidedRun run = All IsDecided run.targets

pub is_found-member :
    (runs : List ScriptRun) (id : Text) → is_found (find_run runs id) ≡ member id (run_ids runs)
unfolding find_run member
is_found-member [] id = refl
is_found-member (run ∷ runs) id = ground (arith, str_eq_comm run.run_id id, is_found-member runs id)

-- The draws that are taken lie in `left`.
abbrev pub DrawnIn : List ScriptRun → (ℕ → Text) → List Text → Type 0
DrawnIn runs draw left =
    (n : ℕ) → member (draw n) (run_ids runs) ≡ true → member (draw n) left ≡ true

DrawnIn-step :
    (runs : List ScriptRun) (draw : ℕ → Text) (left : List Text)
    → ((m n : ℕ) → draw m ≡ draw n → m ≡ n)
    → DrawnIn runs draw left
    → DrawnIn runs (λ n. draw (suc n)) (remove (draw 0) left)
DrawnIn-step runs draw left injective h n p = elim (Bool-cases (str_eq (draw 0) (draw (suc n)))) [
  | inl e ↦ absurd (omega (arith, injective 0 (suc n) ((str_eq_iff (draw 0) (draw (suc n))).0 e)))
  | inr e ↦ rw (member-remove (draw (suc n)) (draw 0) left, e) (h (suc n) p)
]

pub new_id-fresh :
    (rounds : ℕ) (runs : List ScriptRun) (draw : ℕ → Text) (left : List Text)
    → ((m n : ℕ) → draw m ≡ draw n → m ≡ n)
    → DrawnIn runs draw left
    → length left ≤ rounds
    → member (new_id rounds runs draw) (run_ids runs) ≡ false
unfolding new_id
new_id-fresh zero runs draw [] injective h p = elim (Bool-cases (member (draw 0) (run_ids runs))) [
  | inl t ↦ absurd_member (h 0 t)
  | inr f ↦ f
]
  where
    absurd_member : member (draw 0) [] ≡ true → member (draw 0) (run_ids runs) ≡ false
    absurd_member t = unfold member in cc
new_id-fresh zero runs draw (t ∷ left) injective h p = absurd (omega arith)
new_id-fresh (suc rounds) runs draw left injective h p =
    elim (Bool-cases (member (draw 0) (run_ids runs))) [
      | inl t ↦ rw (is_found-member runs (draw 0) ∙ t) (
          new_id-fresh rounds runs (λ n. draw (suc n)) (remove (draw 0) left)
            (λ m n e. suc_eq m n (injective (suc m) (suc n) e))
            (DrawnIn-step runs draw left injective h)
            (omega (arith, length-remove (draw 0) left (h 0 t))))
      | inr f ↦ rw (is_found-member runs (draw 0) ∙ f) f
    ]
  where
    suc_eq : (m n : ℕ) → suc m ≡ suc n → m ≡ n
    suc_eq m n e = omega (arith, e)

pub write-All :
    (P : ScriptRun → Type 0) (runs : List ScriptRun) (changed : ScriptRun)
    → P changed
    → All P runs
    → All P (write_run runs changed)
unfolding write_run
write-All P [] changed h a = tt
write-All P (run ∷ runs) changed h a = elim (Bool-cases (str_eq run.run_id changed.run_id)) [
  | inl e ↦ rw e (h, a.1)
  | inr e ↦ rw e (a.0, write-All P runs changed h a.1)
]

pub ids-write :
    (runs : List ScriptRun) (changed : ScriptRun) → run_ids (write_run runs changed) ≡ run_ids runs
unfolding write_run
ids-write [] changed = refl
ids-write (run ∷ runs) changed = elim (Bool-cases (str_eq run.run_id changed.run_id)) [
  | inl e ↦ rw e (ap (λ id. id ∷ run_ids runs) (sym ((str_eq_iff run.run_id changed.run_id).0 e)))
  | inr e ↦ rw e (ap (λ ids. run.run_id ∷ ids) (ids-write runs changed))
]

pub find-All :
    (P : ScriptRun → Type 0) (runs : List ScriptRun) (id : Text) (run : ScriptRun)
    → All P runs
    → find_run runs id ≡ some run
    → P run
unfolding find_run
find-All P [] id run a h = absurd (cc)
find-All P (r ∷ runs) id run a h = elim (Bool-cases (str_eq r.run_id id)) [
  | inl e ↦ subst P (some_eq r run (rw e at h)) a.0
  | inr e ↦ find-All P runs id run a.1 (rw e at h)
]
  where
    some_eq : (a b : ScriptRun) → some a ≡ some b → a ≡ b
    some_eq a b h = cc

-- Runs are only taken out, so what holds of each and the difference of the ids stay.
without-All :
    (P : ScriptRun → Type 0) (id : Text) (runs : List ScriptRun)
    → All P runs
    → All P (without_run id runs)
unfolding without_run
without-All P id [] a = tt
without-All P id (run ∷ runs) a = elim (Bool-cases (str_eq run.run_id id)) [
  | inl e ↦ rw e (without-All P id runs a.1)
  | inr e ↦ rw e (a.0, without-All P id runs a.1)
]

without-fresh :
    (x id : Text) (runs : List ScriptRun)
    → member x (run_ids runs) ≡ false
    → member x (run_ids (without_run id runs)) ≡ false
unfolding without_run member
without-fresh x id [] h = refl
without-fresh x id (run ∷ runs) h = ground (arith, without-fresh x id runs)

without-Distinct :
    (id : Text) (runs : List ScriptRun)
    → Distinct (run_ids runs)
    → Distinct (run_ids (without_run id runs))
unfolding without_run
without-Distinct id [] d = tt
without-Distinct id (run ∷ runs) d = elim (Bool-cases (str_eq run.run_id id)) [
  | inl e ↦ rw e (without-Distinct id runs d.1)
  | inr e ↦ rw e (without-fresh run.run_id id runs d.0, without-Distinct id runs d.1)
]

runs_from-All :
    (P : ScriptRun → Type 0) (cutoff : ℤ) (runs : List ScriptRun)
    → All P runs
    → All P (runs_from cutoff runs)
unfolding runs_from
runs_from-All P cutoff [] a = tt
runs_from-All P cutoff (run ∷ runs) a = elim (Bool-cases (ltb_ℤ run.issued_at cutoff)) [
  | inl e ↦ rw e (runs_from-All P cutoff runs a.1)
  | inr e ↦ rw e (a.0, runs_from-All P cutoff runs a.1)
]

runs_from-fresh :
    (x : Text) (cutoff : ℤ) (runs : List ScriptRun)
    → member x (run_ids runs) ≡ false
    → member x (run_ids (runs_from cutoff runs)) ≡ false
unfolding runs_from member
runs_from-fresh x cutoff [] h = refl
runs_from-fresh x cutoff (run ∷ runs) h = ground (arith, runs_from-fresh x cutoff runs)

runs_from-Distinct :
    (cutoff : ℤ) (runs : List ScriptRun)
    → Distinct (run_ids runs)
    → Distinct (run_ids (runs_from cutoff runs))
unfolding runs_from
runs_from-Distinct cutoff [] d = tt
runs_from-Distinct cutoff (run ∷ runs) d = elim (Bool-cases (ltb_ℤ run.issued_at cutoff)) [
  | inl e ↦ rw e (runs_from-Distinct cutoff runs d.1)
  | inr e ↦ rw e (runs_from-fresh run.run_id cutoff runs d.0, runs_from-Distinct cutoff runs d.1)
]

-- The runs have different ids, and none has a pending target.
pub record IsBook (runs : List ScriptRun) : Type 0 where
  pub decided : All IsDecidedRun runs
  pub distinct : Distinct (run_ids runs)

pub Distinct-snoc :
    (xs : List Text) (x : Text) → Distinct xs → member x xs ≡ false → Distinct (xs ++ (x ∷ []))
unfolding member
Distinct-snoc [] x d h = (refl, tt)
Distinct-snoc (y ∷ xs) x d h = (
  rw (member-append y xs (x ∷ [])) (ground (arith, d.0, str_eq_comm x y, h)),
  Distinct-snoc xs x d.1 (ground (arith, h)),
)

ids-append : (runs more : List ScriptRun) → run_ids (runs ++ more) ≡ run_ids runs ++ run_ids more
ids-append [] more = refl
ids-append (run ∷ runs) more = ap (λ ids. run.run_id ∷ ids) (ids-append runs more)

pub append-IsBook :
    (runs : List ScriptRun) (run : ScriptRun)
    → IsBook runs
    → IsDecidedRun run
    → member run.run_id (run_ids runs) ≡ false
    → IsBook (runs ++ (run ∷ []))
append-IsBook runs run b decided fresh = record {
  decided = All-append IsDecidedRun runs (run ∷ []) b.decided (decided, tt);
  distinct =
      rw (ids-append runs (run ∷ [])) (Distinct-snoc (run_ids runs) run.run_id b.distinct fresh);
}

pub write-IsBook :
    (runs : List ScriptRun) (changed : ScriptRun)
    → IsBook runs
    → IsDecidedRun changed
    → IsBook (write_run runs changed)
write-IsBook runs changed b decided = record {
  decided = write-All IsDecidedRun runs changed decided b.decided;
  distinct = rw (ids-write runs changed) b.distinct;
}

pub without-IsBook :
    (id : Text) (runs : List ScriptRun) → IsBook runs → IsBook (without_run id runs)
without-IsBook id runs b = record {
  decided = without-All IsDecidedRun id runs b.decided;
  distinct = without-Distinct id runs b.distinct;
}

pub runs_from-IsBook :
    (cutoff : ℤ) (runs : List ScriptRun) → IsBook runs → IsBook (runs_from cutoff runs)
runs_from-IsBook cutoff runs b = record {
  decided = runs_from-All IsDecidedRun cutoff runs b.decided;
  distinct = runs_from-Distinct cutoff runs b.distinct;
}
