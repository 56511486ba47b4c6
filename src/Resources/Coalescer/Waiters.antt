-- ===== src/Resources/Coalescer/Waiters.antt =====
-- The callers that wait for a call of internal/services/resources/coalescer.go, over every
-- interleaving, and the cancellation of its operation.
use kubepeep.Base.{
  ℕ, zero, suc, ◌+◌, ◌-◌, ◌≤◌, ◌<◌, ◌≡◌, ◌≢◌, refl, sym, ap, ◌∙◌, String, str_eq, eq_iff, Bool,
  true, false, not, ◌&&◌, Option, none, some, List, [], ◌∷◌, arith, ltb, ◌==◌, if◌then◌else◌,
  get_elem?, set, Dict, IsDistinct, lookup, delete, lookup-insert, insert-IsDistinct,
  lookup-delete_self, lookup-delete_ne, delete-IsDistinct, Bool-cases, inl, inr, ◌⊎◌,
}
use kubepeep.Resources.Coalescer.{
  Answer, CoalescedCall, RequestCoalescer, Phase, waiting, is_finished, write, forget, forget_found,
  join, create, leave, finish, cancel_all, close,
}

-- A key that is still in the map was there before, and not for the call that was dropped.
lookup-forget_found :
    (n m : ℕ) (key own : String) (found : Option ℕ) (calls : Dict ℕ)
    → IsDistinct calls
    → lookup own calls ≡ found
    → lookup key (forget_found n own found calls) ≡ some m
    → (lookup key calls ≡ some m) × (own ≡ key → (m == n) ≡ false)
unfolding forget_found
lookup-forget_found n m key own none calls d q h =
    (h, λ e. let same = ap (λ (s : String). lookup s calls) e in cc)
lookup-forget_found n m key own (some k) calls d q h = elim (Bool-cases (k == n)) [
  | inl b ↦
      let dropped : lookup key (delete own calls) ≡ some m = ground (arith, h, b) in
      elim (Bool-cases (str_eq own key)) [
        | inl e ↦
            let same = ap (λ (s : String). lookup s (delete own calls)) ((eq_iff own key).0 e) in
            let gone = lookup-delete_self own calls d in
            let never : none ≡ some m = sym gone ∙ same ∙ dropped in cc
        | inr e ↦
            let other : own ≢ key = λ p. let yes_equal = (eq_iff own key).1 p in cc in
            (
              sym (lookup-delete_ne own key calls other) ∙ dropped,
              λ p. let yes_equal = (eq_iff own key).1 p in cc,
            )
      ]
  | inr b ↦
      let kept : lookup key calls ≡ some m = ground (arith, h, b) in
      (
        kept,
        λ e.
            let same = ap (λ (s : String). lookup s calls) e in
            let equal : k ≡ m = cc in ground (arith, b, equal),
      )
]

module _ {ℓ} {T : Type ℓ} where
  -- 1 if a caller waits for a call.
  abbrev pub waits_for : ℕ → Phase T → ℕ
  waits_for n (waiting m) = if m == n then 1 else 0
  waits_for n _ = 0

  abbrev pub callers_of : ℕ → List (Phase T) → ℕ
  callers_of n [] = 0
  callers_of n (p ∷ ps) = waits_for n p + callers_of n ps

  pub callers_of-set :
      (n i : ℕ) (ps : List (Phase T)) (p q : Phase T)
      → get_elem? ps i ≡ some p
      → callers_of n (set ps i q) + waits_for n p ≡ callers_of n ps + waits_for n q
  callers_of-set n i [] p q h = cc
  callers_of-set n zero (r ∷ ps) p q h =
      let same : r ≡ p = cc in omega (arith, ap (waits_for n) same)
  callers_of-set n (suc i) (r ∷ ps) p q h = omega (arith, callers_of-set n i ps p q h)

  -- What is kept of a coalescer beside the number of callers that wait for each call: the calls of the
  -- map have not finished and are waited for, and until the coalescer closes an operation that has not
  -- returned is canceled exactly when nobody waits for it.
  pub record Holds (c : RequestCoalescer T) (callers : ℕ → ℕ) : Type ℓ where
    pub counted : (n : ℕ) → (c.store n).waiters ≡ callers n
    pub unused : (n : ℕ) → c.made ≤ n → (c.store n).waiters ≡ 0
    pub live :
        (n : ℕ)
        → n < c.made
        → is_finished (c.store n) ≡ false
        → c.closed ≡ false
        → (c.store n).canceled ≡ ((c.store n).waiters == 0)
    pub mapped :
        (key : String) (n : ℕ)
        → lookup key c.calls ≡ some n
        → (n < c.made)
          × ((c.store n).key ≡ key)
          × (is_finished (c.store n) ≡ false)
          × (1 ≤ (c.store n).waiters)
    pub distinct : IsDistinct c.calls

  pub Holds-join :
      (key : String) (n : ℕ) (c : RequestCoalescer T) (v w : ℕ → ℕ)
      → lookup key c.calls ≡ some n
      → ((m : ℕ) → w m ≡ v m + (if n == m then 1 else 0))
      → Holds c v
      → Holds (join n c) w
  unfolding join
  Holds-join key n c v w q e h =
      let here = h.mapped key n q in
      record {
        counted = λ m. ground (arith, h.counted m, e m);
        unused = λ m k. ground (arith, h.unused m k, here.0);
        live = λ m k f o. ground (arith, h.live m k, f, o, here.2, here.3);
        mapped = λ j m r.
            let there = h.mapped j m r in ground (arith, there.0, there.1, there.2, there.3);
        distinct = h.distinct;
      }

  mapped_created :
      (key : String) (c : RequestCoalescer T) (j : String) (m : ℕ)
      → ((k : String) (n : ℕ)
          → lookup k c.calls ≡ some n
          → (n < c.made)
            × ((c.store n).key ≡ k)
            × (is_finished (c.store n) ≡ false)
            × (1 ≤ (c.store n).waiters))
      → lookup j (create key c).calls ≡ some m
      → (m < c.made + 1)
        × (((create key c).store m).key ≡ j)
        × (is_finished ((create key c).store m) ≡ false)
        × (1 ≤ ((create key c).store m).waiters)
  unfolding create
  mapped_created key c j m h r =
      let placed = lookup-insert key j c.made c.calls in
      elim (Bool-cases (str_eq key j)) [
        | inl q ↦
            let new : c.made ≡ m = ground (arith, placed, q, r) in
            let same = (eq_iff key j).0 q in ground (arith, new, same)
        | inr q ↦
            let old : lookup j c.calls ≡ some m = ground (arith, placed, q, r) in
            let there = h j m old in ground (arith, there.0, there.1, there.2, there.3)
      ]

  pub Holds-create :
      (key : String) (c : RequestCoalescer T) (v w : ℕ → ℕ)
      → ((m : ℕ) → w m ≡ v m + (if c.made == m then 1 else 0))
      → Holds c v
      → Holds (create key c) w
  unfolding create
  Holds-create key c v w e h = record {
    counted = λ m. ground (arith, h.counted m, e m, h.unused m);
    unused = λ m k. ground (arith, h.unused m, k);
    live = λ m k f o. ground (arith, h.live m, k, f, o);
    mapped = λ j m r. mapped_created key c j m h.mapped r;
    distinct = insert-IsDistinct key c.made c.calls h.distinct;
  }

  IsDistinct-forget :
      (n : ℕ) (call : CoalescedCall T) (calls : Dict ℕ)
      → IsDistinct calls
      → IsDistinct (forget n call calls)
  unfolding forget forget_found
  IsDistinct-forget n call calls d = ground (arith, delete-IsDistinct call.key calls d)

  Holds-drop :
      (n : ℕ) (c : RequestCoalescer T) (call : CoalescedCall T) (v w : ℕ → ℕ)
      → n < c.made
      → call.key ≡ (c.store n).key
      → ((m : ℕ) → (if m == n then call.waiters else v m) ≡ w m)
      → (is_finished call ≡ true) ⊎ ((call.canceled ≡ true) × (call.waiters ≡ 0))
      → Holds c v
      → Holds (record c { calls = forget n (c.store n) c.calls; store = write c.store n call }) w
  unfolding forget
  Holds-drop n c call v w k own e ended h = record {
    counted = λ m. ground (arith, h.counted m, e m);
    unused = λ m l. ground (arith, h.unused m l, k);
    live = λ m l f o. elim ended [
      | inl done ↦ ground (arith, h.live m l, f, o, done)
      | inr left ↦ ground (arith, h.live m l, f, o, left.0, left.1)
    ];
    mapped = λ key m r.
        let old =
          lookup-forget_found n m key (c.store n).key (lookup (c.store n).key c.calls) c.calls
            h.distinct refl r in
        let there = h.mapped key m old.0 in
        let apart : (m == n) ≡ false = elim (Bool-cases (m == n)) [
          | inl q ↦
              let same : n ≡ m = ground (arith, q) in
              old.1 (ap (λ (i : ℕ). (c.store i).key) same ∙ there.1)
          | inr q ↦ q
        ] in
        ground (arith, apart, there.0, there.1, there.2, there.3);
    distinct = IsDistinct-forget n (c.store n) c.calls h.distinct;
  }

  Holds-leave_behind :
      (n : ℕ) (c : RequestCoalescer T) (v w : ℕ → ℕ)
      → ((m : ℕ) → w m + (if n == m then 1 else 0) ≡ v m)
      → (is_finished (c.store n) ≡ true) ⊎ (2 ≤ (c.store n).waiters)
      → Holds c v
      → let call = c.store n in
        Holds (record c { store = write c.store n (record call { waiters = call.waiters - 1 }) }) w
  Holds-leave_behind n c v w e more h = record {
    counted = λ m. ground (arith, h.counted m, e m);
    unused = λ m l. ground (arith, h.unused m l, e m);
    live = λ m l f o. elim more [
      | inl done ↦ ground (arith, h.live m l, f, o, done)
      | inr two ↦ ground (arith, h.live m l, f, o, two)
    ];
    mapped = λ key m r.
        let there = h.mapped key m r in
        elim more [
          | inl done ↦ ground (arith, there.0, there.1, there.2, there.3, done)
          | inr two ↦ ground (arith, there.0, there.1, there.2, there.3, two)
        ];
    distinct = h.distinct;
  }

  ended_or_more :
      (by_context : Bool) (c : RequestCoalescer T) (n : ℕ) (v w : ℕ → ℕ)
      → ((m : ℕ) → w m + (if n == m then 1 else 0) ≡ v m)
      → (by_context ≡ false → is_finished (c.store n) ≡ true)
      → (by_context && (c.store n).waiters - 1 == 0 && not (is_finished (c.store n))) ≡ false
      → Holds c v
      → (is_finished (c.store n) ≡ true) ⊎ (2 ≤ (c.store n).waiters)
  ended_or_more false c n v w e f q h = inl (f refl)
  ended_or_more true c n v w e f q h = elim (Bool-cases (is_finished (c.store n))) [
    | inl done ↦ inl done
    | inr undone ↦ inr (ground (arith, q, undone, h.counted n, e n))
  ]

  pub Holds-leave :
      (n : ℕ) (by_context : Bool) (c : RequestCoalescer T) (v w : ℕ → ℕ)
      → ((m : ℕ) → w m + (if n == m then 1 else 0) ≡ v m)
      → (by_context ≡ false → is_finished (c.store n) ≡ true)
      → Holds c v
      → Holds (leave n by_context c) w
  unfolding leave
  Holds-leave n by_context c v w e f h =
      let call = c.store n in
      elim (Bool-cases (by_context && call.waiters - 1 == 0 && not (is_finished call))) [
        | inl q ↦
            let used : n < c.made = ground (arith, h.unused n, h.counted n, e n) in
            let rest : (m : ℕ) → (if m == n then call.waiters - 1 else v m) ≡ w m =
              λ m. ground (arith, e m, h.counted m) in
            rw q (
              Holds-drop n c (record call { waiters = call.waiters - 1; canceled = true }) v w used
                refl rest (inr (refl, ground (arith, q))) h)
        | inr q ↦ rw q (Holds-leave_behind n c v w e (ended_or_more by_context c n v w e f q h) h)
      ]

  abbrev is_done_outcome : Option (Answer T) → Bool
  is_done_outcome o = elim o [ none ↦ false | some a ↦ true ]

  -- Cancelling calls leaves all else.
  cancel_all-store :
      (calls : Dict ℕ) (store : ℕ → CoalescedCall T) (m : ℕ)
      → ((cancel_all calls store m).waiters ≡ (store m).waiters)
        × ((cancel_all calls store m).key ≡ (store m).key)
        × ((cancel_all calls store m).outcome ≡ (store m).outcome)
  unfolding cancel_all
  cancel_all-store [] store m = (refl, refl, refl)
  cancel_all-store ((k, n) ∷ calls) store m =
      let rest = cancel_all-store calls store m in ground (arith, rest.0, rest.1, rest.2)

  Holds-if :
      (b : Bool) (c d : RequestCoalescer T) (w : ℕ → ℕ)
      → Holds c w
      → Holds d w
      → Holds (if b then c else d) w
  Holds-if true c d w h k = h
  Holds-if false c d w h k = k

  pub Holds-close : (c : RequestCoalescer T) (w : ℕ → ℕ) → Holds c w → Holds (close c) w
  unfolding close
  Holds-close c w h =
      Holds-if c.closed c (record c { closed = true; store = cancel_all c.calls c.store }) w h
        (record {
          counted = λ n. (cancel_all-store c.calls c.store n).0 ∙ h.counted n;
          unused = λ n l. (cancel_all-store c.calls c.store n).0 ∙ h.unused n l;
          live = λ n l f o. cc;
          mapped = λ key n r.
              let there = h.mapped key n r in
              let same = cancel_all-store c.calls c.store n in
              (there.0, same.1 ∙ there.1, ap is_done_outcome same.2 ∙ there.2, rw same.0 there.3);
          distinct = h.distinct;
        })

  pub Holds-finish :
      (n : ℕ) (a : Answer T) (c : RequestCoalescer T) (w : ℕ → ℕ)
      → Holds c w
      → Holds (finish n a c) w
  unfolding finish
  Holds-finish n a c w h =
      let call = c.store n in
      elim (Bool-cases (ltb n c.made && not (is_finished call))) [
        | inl q ↦
            let used : n < c.made = ground (arith, q) in
            let same : (m : ℕ) → (if m == n then call.waiters else w m) ≡ w m =
              λ m. ground (arith, h.counted m) in
            rw q (
              Holds-drop n c (record call { outcome = some a; canceled = true }) w w used refl same
                (inl refl) h)
        | inr q ↦ rw q h
      ]

  pub Holds-same :
      (c : RequestCoalescer T) (v w : ℕ → ℕ) → ((n : ℕ) → v n ≡ w n) → Holds c v → Holds c w
  Holds-same c v w e h = record {
    counted = λ n. h.counted n ∙ e n;
    unused = h.unused;
    live = h.live;
    mapped = h.mapped;
    distinct = h.distinct;
  }
