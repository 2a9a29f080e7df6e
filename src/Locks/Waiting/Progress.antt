-- ===== src/Locks/Waiting/Progress.antt =====
-- No deadlock: of tasks that take their locks in ascending order, one can always go on.
use patwari.Prelude.{
  All, List, [], ap, arith, inl, inr, subst, suc, sym, zero, ℕ, ◌++◌, ◌+◌, ◌<◌, ◌∷◌, ◌≡◌, ◌≤◌, ◌⊎◌,
}
use patwari.Locks.Order.{In}
use patwari.Locks.Waiting.{Action, Task, lock, remove, unlock}

-- Every lock comes after all that are held when it is taken, and all are released in the end.
abbrev pub IsOrdered : List ℕ → List Action → Type 0
IsOrdered held [] = held ≡ []
IsOrdered held (lock l ∷ plan) = All (λ h. h < l) held × IsOrdered (l ∷ held) plan
IsOrdered held (unlock l ∷ plan) = IsOrdered (remove l held) plan

abbrev pub InTasks : Task → List Task → Type 0
InTasks t [] = ⊥
InTasks t (u ∷ ts) = (t ≡ u) ⊎ InTasks t ts

-- The next lock is held by a task, maybe the same one.
pub record IsBlocked (ts : List Task) (t : Task) : Type 0 where
  pub wanted : ℕ
  pub rest : List Action
  pub next : t.plan ≡ lock wanted ∷ rest
  pub holder : Task
  pub known : InTasks holder ts
  pub holds : In wanted holder.held

abbrev want_of : List Action → ℕ
want_of [] = 0
want_of (lock l ∷ plan) = l
want_of (unlock l ∷ plan) = 0

abbrev highest : List Task → ℕ
highest [] = 0
highest (t ∷ ts) = want_of t.plan + highest ts

want-le-highest : (t : Task) (ts : List Task) → InTasks t ts → want_of t.plan ≤ highest ts
want-le-highest t [] m = absurd m
want-le-highest t (u ∷ ts) (inl e) = rw e (omega arith)
want-le-highest t (u ∷ ts) (inr m) = omega (arith, want-le-highest t ts m)

All-In : (b : ℕ) (l : List ℕ) {a : ℕ} → All (λ h. h < b) l → In a l → a < b
All-In b [] h m = absurd m
All-In b (c ∷ l) h (inl e) = rw e h.0
All-In b (c ∷ l) h (inr m) = All-In b l h.1 m

AllTasks-In : (P : Task → Type 0) (ts : List Task) (t : Task) → All P ts → InTasks t ts → P t
AllTasks-In P [] t h m = absurd m
AllTasks-In P (u ∷ ts) t h (inl e) = subst P (sym e) h.0
AllTasks-In P (u ∷ ts) t h (inr m) = AllTasks-In P ts t h.1 m

abbrev pub AreOrdered : List Task → Type 0
AreOrdered = All (λ t. IsOrdered t.held t.plan)

-- A finished task, or one that waits.
abbrev pub IsIdle : List Task → Task → Type 0
IsIdle ts t = (t.plan ≡ []) ⊎ IsBlocked ts t

finished_holds_nothing :
    (t : Task) (l : ℕ) → IsOrdered t.held t.plan → t.plan ≡ [] → ¬ (In l t.held)
finished_holds_nothing t l o e m = let none_held : t.held ≡ [] = rw e at o in rw none_held at m

module _ (ts : List Task) (ordered : AreOrdered ts) (idle : All (IsIdle ts) ts) where
  -- From a task that waits, the wanted locks rise without end.
  climb :
      (n : ℕ) (t : Task)
      → InTasks t ts
      → IsBlocked ts t
      → (u : Task) × InTasks u ts × IsBlocked ts u × (n ≤ want_of u.plan)
  climb zero t m b = (t, m, b, omega arith)
  climb (suc n) t m b =
      let (u, mu, bu, high) = climb n t m b in
      let v = bu.holder in
      let ov = AllTasks-In (λ x. IsOrdered x.held x.plan) ts v ordered bu.known in
      elim (AllTasks-In (IsIdle ts) ts v idle bu.known) [
        | inl done ↦ absurd (finished_holds_nothing v bu.wanted ov done bu.holds)
        | inr bv ↦
            let below = All-In bv.wanted v.held (rw bv.next at ov).0 bu.holds in
            (v, bu.known, bv, omega (arith, ap want_of bu.next, ap want_of bv.next))
      ]

  no_deadlock : (t : Task) → InTasks t ts → t.plan ≡ []
  no_deadlock t m = elim (AllTasks-In (IsIdle ts) ts t idle m) [
    | inl done ↦ done
    | inr b ↦
        let (u, mu, bu, high) = climb (suc (highest ts)) t m b in
        absurd (omega (arith, want-le-highest u ts mu))
  ]

-- One task takes its next lock, which no task holds, or drops one.
pub data TaskStep (ts : List Task) : Task → Task → Type 0 where
  acquire :
      (t : Task) (l : ℕ) (rest : List Action)
      → t.plan ≡ lock l ∷ rest
      → ((u : Task) → InTasks u ts → ¬ (In l u.held))
      → TaskStep ts t (record { held = l ∷ t.held; plan = rest })
  release :
      (t : Task) (l : ℕ) (rest : List Action)
      → t.plan ≡ unlock l ∷ rest
      → TaskStep ts t (record { held = remove l t.held; plan = rest })

-- A task among the others makes its step.
pub data Step : List Task → List Task → Type 0 where
  move :
      (before after : List Task) {t t' : Task} {s s' : List Task}
      → s ≡ before ++ (t ∷ after)
      → s' ≡ before ++ (t' ∷ after)
      → TaskStep s t t'
      → Step s s'

pub data Reach (s : List Task) : List Task → Type 0 where
  here : Reach s s
  next : {t u : List Task} → Reach s t → Step t u → Reach s u

TaskStep-IsOrdered :
    {ts : List Task} {t t' : Task}
    → TaskStep ts t t'
    → IsOrdered t.held t.plan
    → IsOrdered t'.held t'.plan
TaskStep-IsOrdered (acquire t l rest e _) o = (rw e at o).1
TaskStep-IsOrdered (release t l rest e) o = rw e at o

replace-AreOrdered :
    (before after : List Task) (t t' : Task)
    → (IsOrdered t.held t.plan → IsOrdered t'.held t'.plan)
    → AreOrdered (before ++ (t ∷ after))
    → AreOrdered (before ++ (t' ∷ after))
replace-AreOrdered [] after t t' f o = (f o.0, o.1)
replace-AreOrdered (b ∷ before) after t t' f o = (o.0, replace-AreOrdered before after t t' f o.1)

Step-AreOrdered : {s s' : List Task} → Step s s' → AreOrdered s → AreOrdered s'
Step-AreOrdered (move before after {t} {t'} e e' st) o =
    subst AreOrdered (sym e')
      (replace-AreOrdered before after t t' (TaskStep-IsOrdered st) (subst AreOrdered e o))

Reach-AreOrdered : {s s' : List Task} → AreOrdered s → Reach s s' → AreOrdered s'
Reach-AreOrdered o here = o
Reach-AreOrdered o (next r st) = Step-AreOrdered st (Reach-AreOrdered o r)

-- From tasks that hold no lock and have ordered plans, whatever the interleaving, a state in
-- which every task has finished or waits for a held lock is one in which all have finished.
pub Reach-no_deadlock :
    (s s' : List Task)
    → AreOrdered s
    → Reach s s'
    → All (IsIdle s') s'
    → (t : Task) → InTasks t s'
    → t.plan ≡ []
Reach-no_deadlock s s' o r idle t m = no_deadlock s' (Reach-AreOrdered o r) idle t m
