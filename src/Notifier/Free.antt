-- ===== src/Notifier/Free.antt =====
-- Which queues the thread still has to check: the local ones of these are empty.
use medialibrary.Common.{
  ℕ, ◌==◌, leb, ◌≡◌, refl, sym, ap, subst, ◌∙◌, Bool, true, false, ◌||◌, List, [], ◌∷◌, arith,
  Bool-cases, inl, inr,
}
use medialibrary.Notifier.{
  no_queue, checked, Phase, tests, falls_asleep, sleeps, waits, checks, Notifier, notify_all,
  notify_change, start_flush, check_queue, send, advance, Event, notifies, flushes, wakes_up,
  advances, step,
}

unfoldable pub member : ℕ → List ℕ → Bool
member k [] = false
member k (x ∷ xs) = k == x || member k xs

unfoldable pub AreDistinct : List ℕ → Type 0
AreDistinct [] = Unit
AreDistinct (x ∷ xs) = (member x xs ≡ false) × AreDistinct xs

-- The queues that are still to check.
abbrev pub is_pending : ℕ → Phase → Bool
is_pending k (checks ks next start flushing) = member k ks
is_pending k p = true

abbrev pub left_of : Phase → List ℕ
left_of (checks ks next start flushing) = ks
left_of p = []

pub record IsFree (n : Notifier) : Type 0 where
  pub free : (k : ℕ) → is_pending k n.phase ≡ true → n.outputs k ≡ no_queue
  pub distinct : AreDistinct (left_of n.phase)

pub member_same : (j k : ℕ) (ks : List ℕ) → j ≡ k → member j ks ≡ member k ks
member_same j k ks e = ap (λ i. member i ks) e

pub notify_all-free : (p : Phase) (k : ℕ) → is_pending k (notify_all p) ≡ is_pending k p
notify_all-free sleeps k = refl
notify_all-free p k = refl

pub notify_all-left : (p : Phase) → left_of (notify_all p) ≡ left_of p
notify_all-left sleeps = refl
notify_all-left p = refl

pub member-here : (j : ℕ) (ks : List ℕ) → member j (j ∷ ks) ≡ true
unfolding member
member-here j ks = ground arith

pub member-later : (k j : ℕ) (ks : List ℕ) → member k ks ≡ true → member k (j ∷ ks) ≡ true
unfolding member
member-later k j ks e = ground (arith, e)

pub woken-IsFree :
    (n : Notifier) (flushing : Bool)
    → IsFree n
    → IsFree (record n { flushing = flushing; phase = notify_all n.phase })
woken-IsFree n flushing v = record {
  free = λ k e. v.free k (sym (notify_all-free n.phase k) ∙ e);
  distinct = subst AreDistinct (sym (notify_all-left n.phase)) v.distinct;
}

pub checked-AreDistinct : AreDistinct checked
unfolding AreDistinct member
checked-AreDistinct =
    (refl, (refl, (refl, (refl, (refl, (refl, (refl, (refl, (refl, (refl, tt))))))))))

pub check_queue-IsFree :
    (j : ℕ) (ks : List ℕ) (next now : ℕ) (flushing : Bool) (n : Notifier)
    → IsFree (record n { phase = checks (j ∷ ks) next now flushing })
    → IsFree (
        check_queue j ks next now flushing (record n { phase = checks (j ∷ ks) next now flushing }))
unfolding check_queue AreDistinct
check_queue-IsFree j ks next now flushing n v = elim (Bool-cases ((n.queues j).timeout == 0)) [
  | inl e ↦
      rw e (record { free = λ k f. v.free k (member-later k j ks f); distinct = v.distinct.1 })
  | inr e ↦ elim (Bool-cases (leb (n.queues j).timeout now || flushing)) [
    | inl due ↦
        rw (e, due)
          (record {
            free = λ k f.
                ground
                  (arith, f, v.distinct.0, v.free k (member-later k j ks f), member_same k j ks);
            distinct = v.distinct.1;
          })
    | inr due ↦
        rw (e, due)
          (record { free = λ k f. v.free k (member-later k j ks f); distinct = v.distinct.1 })
  ]
]

pub advance-IsFree :
    (now : ℕ) (n : Notifier) (p : Phase)
    → IsFree (record n { phase = p })
    → IsFree (advance now (record n { phase = p }))
unfolding advance send check_queue AreDistinct member
advance-IsFree now n tests v = elim (Bool-cases n.wake_up_scheduled) [
  | inl e ↦ rw e (record { free = v.free; distinct = tt })
  | inr e ↦ elim (Bool-cases n.flushing) [
    | inl f ↦ rw (e, f) (record { free = v.free; distinct = tt })
    | inr f ↦ rw (e, f) (record { free = v.free; distinct = tt })
  ]
]
advance-IsFree now n falls_asleep v = record { free = v.free; distinct = tt }
advance-IsFree now n sleeps v = v
advance-IsFree now n (waits timeout) v = elim (Bool-cases (leb timeout now || n.flushing)) [
  | inl e ↦ rw e (record { free = λ k f. v.free k refl; distinct = checked-AreDistinct })
  | inr e ↦ rw e v
]
advance-IsFree now n (checks [] next start flushing) v = elim (Bool-cases (next == 0)) [
  | inl e ↦ rw e (record { free = λ k f. refl; distinct = tt })
  | inr e ↦ rw e (record { free = λ k f. refl; distinct = tt })
]
advance-IsFree now n (checks (j ∷ ks) next start flushing) v =
    check_queue-IsFree j ks next start flushing n v

pub step-IsFree : (e : Event) (n : Notifier) → IsFree n → IsFree (step e n)
unfolding step notify_change
step-IsFree (notifies j c now) n v = elim (Bool-cases n.wake_up_scheduled) [
  | inl e ↦ rw e (record { free = v.free; distinct = v.distinct })
  | inr e ↦ rw e (record {
    free = λ k f. v.free k (sym (notify_all-free n.phase k) ∙ f);
    distinct = subst AreDistinct (sym (notify_all-left n.phase)) v.distinct;
  })
]
step-IsFree flushes n v = woken-IsFree n (start_flush n).flushing v
step-IsFree wakes_up n v = woken-IsFree n n.flushing v
step-IsFree (advances now) n v = advance-IsFree now n n.phase v
