-- ===== src/Ring/Contents.antt =====
-- What a ring buffer holds: its elements, oldest first.
use native.Mathlib.Nat.{mod-eq_of_lt, mod-eq-sub-mod, mod-lt}
use native.Mathlib.Decide.{dec_lt}
use dvactor.Base.{
  ℕ, zero, suc, ◌+◌, ◌-◌, ◌%◌, ◌≤◌, ◌<◌, ◌≡◌, ◌≢◌, ◌⊎◌, inl, inr, refl, ap, ap₂, ◌∙◌, List, [], ◌∷◌,
  ◌++◌, length, get_or, arith,
}
use dvactor.Ring.{RingBuffer}
use dvactor.Ring.Inv.{IsValid}

module _ {ℓ} {A : Type ℓ} where
  -- `f i ∷ f (i + 1) ∷ …`, `n` values.
  abbrev pub collect : (ℕ → A) → ℕ → ℕ → List A
  collect f i zero = []
  collect f i (suc n) = f i ∷ collect f (suc i) n

  pub collect-ext :
      (f g : ℕ → A) (i n : ℕ)
      → ((k : ℕ) → i ≤ k → k < i + n → f k ≡ g k)
      → collect f i n ≡ collect g i n
  collect-ext f g i zero h = refl
  collect-ext f g i (suc n) h =
      ap₂ ◌∷◌ (h i (omega arith) (omega arith))
        (collect-ext f g (suc i) n (λ k lo hi. h k (omega arith) (omega arith)))

  pub collect-snoc : (f : ℕ → A) (i n : ℕ) → collect f i (suc n) ≡ collect f i n ++ (f (i + n) ∷ [])
  collect-snoc f i zero = ap (λ k. f k ∷ []) (let e : i ≡ i + 0 = omega arith in e)
  collect-snoc f i (suc n) =
      ap (λ l. f i ∷ l)
        (collect-snoc f (suc i) n
          ∙ ap (λ k. collect f (suc i) n ++ (f k ∷ []))
              (let e : suc i + n ≡ i + suc n = omega arith in e))

  pub collect-shift : (f : ℕ → A) (i n : ℕ) → collect f (suc i) n ≡ collect (λ k. f (suc k)) i n
  collect-shift f i zero = refl
  collect-shift f i (suc n) = ap (λ l. f (suc i) ∷ l) (collect-shift f (suc i) n)

  pub length-collect : (f : ℕ → A) (i n : ℕ) → length (collect f i n) ≡ n
  length-collect f i zero = refl
  length-collect f i (suc n) = ap suc (length-collect f (suc i) n)

  -- The place of the `k`-th element, and the element.
  abbrev pub place : RingBuffer A → ℕ → ℕ
  place rb k = (rb.head + k) % rb.size

  abbrev pub slot : RingBuffer A → ℕ → A
  slot rb k = get_or rb.buffer (place rb k) rb.zero_value

  abbrev pub contents : RingBuffer A → List A
  contents rb = collect (slot rb) 0 rb.count

  pub place_in : {rb : RingBuffer A} (k : ℕ) → IsValid rb → place rb k < length rb.buffer
  place_in {rb} k v = omega (arith, mod-lt (rb.head + k) v.positive)

  -- An index less than a round from the head is the sum, or the sum less a round.
  pub place_cases :
      {rb : RingBuffer A} (k : ℕ)
      → IsValid rb
      → k < rb.size
      → ((rb.head + k < rb.size) × (place rb k ≡ rb.head + k))
        ⊎ ((rb.size ≤ rb.head + k) × (place rb k ≡ rb.head + k - rb.size))
  place_cases {rb} k v h = elim (dec_lt (rb.head + k) rb.size) [
    | yes p ↦ inl (p, mod-eq_of_lt p)
    | no p ↦ inr (omega arith, wrapped p)
  ]
    where
      wrapped : ¬ (rb.head + k < rb.size) → place rb k ≡ rb.head + k - rb.size
      wrapped p =
          mod-eq-sub-mod {n = rb.head + k} {m = rb.size} (omega arith)
          ∙ mod-eq_of_lt (omega (arith, v.head_in))

  -- Fewer than `size` steps apart, two elements have different places.
  pub place_ne :
      {rb : RingBuffer A} (j k : ℕ) → IsValid rb → j < k → k < rb.size → place rb j ≢ place rb k
  place_ne {rb} j k v h b =
      omega (arith, place_cases j v (omega arith), place_cases k v b, v.head_in)

  full_round :
      {rb : RingBuffer A}
      → IsValid rb
      → ¬ (rb.count < rb.size)
      → (rb.head + rb.count) % rb.size ≡ rb.head
  full_round {rb} v p =
      mod-eq-sub-mod {n = rb.head + rb.count} {m = rb.size} (omega (arith, v.count_in))
      ∙ ap (λ k. k % rb.size)
          (let e : rb.head + rb.count - rb.size ≡ rb.head = omega (arith, v.count_in) in e)
      ∙ mod-eq_of_lt v.head_in

  -- Where `tail` lies when the elements do not wrap, and when they do.
  pub tail_ahead :
      {rb : RingBuffer A} → IsValid rb → rb.head < rb.tail → rb.tail ≡ rb.head + rb.count
  tail_ahead {rb} v h = elim (dec_lt rb.count rb.size) [
    | yes p ↦ omega (arith, place_cases rb.count v p, v.tail_at, v.head_in)
    | no p ↦ absurd (omega (arith, full_round v p, v.tail_at))
  ]

  pub tail_behind :
      {rb : RingBuffer A}
      → IsValid rb
      → rb.tail ≤ rb.head
      → 0 < rb.count
      → rb.tail + rb.size ≡ rb.head + rb.count
  tail_behind {rb} v h c = elim (dec_lt rb.count rb.size) [
    | yes p ↦ omega (arith, place_cases rb.count v p, v.tail_at, v.head_in)
    | no p ↦ omega (arith, full_round v p, v.tail_at, v.count_in)
  ]

  pub length-contents : (rb : RingBuffer A) → length (contents rb) ≡ rb.count
  length-contents rb = length-collect (slot rb) 0 rb.count
