-- ===== src/Observable/Pairing.antt =====
-- Observables and listeners point at one another, whatever is set, replaced or deleted.
use treeipc.Base.{
  ℕ, ◌≡◌, ◌≢◌, refl, ap, Option, none, some, arith, ◌==◌, ne→==, if◌then◌else◌, ℕ_discrete,
}
use treeipc.Observable.{
  Links, update, remove_observable, remove_listener, set_observable, set_listener, delete_listener,
  delete_observable, notify,
}

-- An observable points at a listener exactly when the listener points at it.
pub record IsPaired (s : Links) : Type 0 where
  pub forth : (o k : ℕ) → s.listener_of o ≡ some k → s.observable_of k ≡ some o
  pub back : (o k : ℕ) → s.observable_of k ≡ some o → s.listener_of o ≡ some k

abbrev forget : ℕ → Option ℕ → Option ℕ
forget k none = none
forget k (some j) = if j == k then none else some j

-- The links in which `o` and `k` have one another, and their partners have nobody.
abbrev pub tied : Links → ℕ → ℕ → Links
tied s o k = record {
  listener_of = λ x. if x == o then some k else forget k (s.listener_of x);
  observable_of = λ y. if y == k then some o else forget o (s.observable_of y);
}

Links-ext :
    (s t : Links)
    → ((x : ℕ) → s.listener_of x ≡ t.listener_of x)
    → ((y : ℕ) → s.observable_of y ≡ t.observable_of y)
    → s ≡ t
Links-ext s t f g i = record { listener_of = λ x. f x i; observable_of = λ y. g y i }

module _ (s : Links) (o k : ℕ) (h : IsPaired s) where
  -- By the partners that `o` and `k` had.
  set_listener_cases :
      (l p : Option ℕ)
      → s.listener_of o ≡ l
      → s.observable_of k ≡ p
      → set_listener s o (some k) ≡ some (tied s o k)
  unfolding set_listener set_observable remove_observable remove_listener
  set_listener_cases none none el ep = rw el (
      rw ep (
        ap some
          (Links-ext _ _ (λ x. ground (arith, h.forth x k)) (λ y. ground (arith, h.back o y)))))
  set_listener_cases none (some p) el ep = rw el (
      rw ep (
        rw (ne→== p o (ground (arith, h.back p k))) (
          ap some (
            Links-ext _ _ (λ x. ground (arith, h.forth x k, h.back p k))
              (λ y. ground (arith, h.back o y))))))
  set_listener_cases (some l) none el ep =
      let free : update s.observable_of l none k ≡ none = ground arith in
      rw el (
        rw free (
          ap some (
            Links-ext _ _ (λ x. ground (arith, h.forth x k))
              (λ y. ground (arith, h.back o y, h.forth o l)))))
  set_listener_cases (some l) (some p) el ep = elim (ℕ_discrete l k) [
    | yes same ↦
        let free : update s.observable_of l none k ≡ none = ground arith in
        rw el (
          rw free (
            ap some (
              Links-ext _ _ (λ x. ground (arith, h.forth x k, h.forth o l))
                (λ y. ground (arith, h.back o y, h.forth o l)))))
    | no other ↦
        let kept : update s.observable_of l none k ≡ some p = ground arith in
        rw el (
          rw kept (
            rw (ne→== p o (ground (arith, h.back p k))) (
              ap some (
                Links-ext _ _ (λ x. ground (arith, h.forth x k, h.back p k))
                  (λ y. ground (arith, h.back o y, h.forth o l))))))
  ]

  tied-IsPaired : IsPaired (tied s o k)
  tied-IsPaired = record {
    forth = λ x y e. ground (arith, h.forth x y, h.forth x k);
    back = λ x y e. ground (arith, h.back x y, h.back o y);
  }

  -- On paired links `set_listener` with a listener returns, without waiting for a mutex that its own
  -- thread holds: the two point at one another, their old partners at nobody, all else is as it was,
  -- and the links are paired again.
  pub set_listener-IsPaired :
      (set_listener s o (some k) ≡ some (tied s o k)) × IsPaired (tied s o k)
  set_listener-IsPaired =
      (set_listener_cases (s.listener_of o) (s.observable_of k) refl refl, tied-IsPaired)

-- The links without the listener `k`.
abbrev pub without : Links → ℕ → Links
without s k = record {
  listener_of = λ x. forget k (s.listener_of x);
  observable_of = update s.observable_of k none;
}

module _ (s : Links) (k : ℕ) (h : IsPaired s) where
  delete_cases : (p : Option ℕ) → s.observable_of k ≡ p → delete_listener s k ≡ some (without s k)
  unfolding delete_listener set_observable remove_listener
  delete_cases none ep =
      rw ep (ap some (Links-ext _ _ (λ x. ground (arith, h.forth x k)) (λ y. refl)))
  delete_cases (some p) ep =
      rw ep (ap some (Links-ext _ _ (λ x. ground (arith, h.forth x k, h.back p k)) (λ y. refl)))

  -- A deleted listener is taken out of the links whole: no observable points at it any more, nor it at
  -- one, all else is as it was, and the links are paired.
  pub delete_listener-IsPaired :
      (delete_listener s k ≡ some (without s k))
      × IsPaired (without s k)
      × ((o : ℕ) → notify (without s k) o ≢ some k)
  unfolding notify
  delete_listener-IsPaired = (
    delete_cases (s.observable_of k) refl,
    record {
      forth = λ x y e. ground (arith, h.forth x y);
      back = λ x y e. ground (arith, h.back x y, h.back x k);
    },
    λ o e. ground arith,
  )

-- No listener points at a deleted observable, and the links that are left, without the pointer that was
-- in the deleted object, are paired.
pub delete_observable-IsPaired :
    (s : Links) (o : ℕ)
    → IsPaired s
    → let s' = delete_observable s o in
      ((k : ℕ) → s'.observable_of k ≢ some o)
      × IsPaired (record s' { listener_of = update s'.listener_of o none })
unfolding delete_observable remove_observable
delete_observable-IsPaired s o h = (
  λ k e. ground (arith, h.back o k),
  record {
    forth = λ x k e. ground (arith, h.forth x k, h.forth o k);
    back = λ x k e. ground (arith, h.back x k, h.back o k, h.forth o k);
  },
)
