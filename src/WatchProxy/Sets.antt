-- ===== src/WatchProxy/Sets.antt =====
-- The maps of sets of a watch proxy, as predicates.
use dvactor.Base.{
  ℕ, ◌+◌, ◌≡◌, ◌≢◌, refl, inl, inr, Bool, true, false, ◌&&◌, Option, none, some, List, [], ◌∷◌,
  arith, ◌==◌, ==_iff, if◌then◌else◌, Bool-cases,
}
use dvactor.Base.Maps.{Eq, lookup, insert, delete, lookup-insert, lookup-delete, nat_eq}
use dvactor.WatchProxy.{Subs, is_nil, contains, remove, add_sub, remove_sub, update}

abbrev pub elems {ℓ} : {K : Type ℓ} → Option (List K) → List K
elems none = []
elems (some ks) = ks

module _ {ℓ} {K : Type ℓ} ⦃e : Eq K⦄ where
  abbrev pub times : K → List K → ℕ
  times k [] = 0
  times k (x ∷ xs) = (if e.beq x k then 1 else 0) + times k xs

  -- Whether `k` is subscribed to the type `t`.
  abbrev pub member : ℕ → K → Subs K → Bool
  member t k m = contains k (elems (lookup t m))

  -- No element stands twice.
  abbrev pub Once : List K → Type ℓ
  Once ks = (k : K) → times k ks ≡ (if contains k ks then 1 else 0)

  pub contains-remove :
      (k j : K) (ks : List K)
      → contains j (remove k ks) ≡ (if e.beq k j then false else contains j ks)
  contains-remove k j [] = ground arith
  contains-remove k j (x ∷ xs) =
      ground (arith, contains-remove k j xs, e.beq_iff x k, e.beq_iff x j, e.beq_iff k j)

  times-remove :
      (k j : K) (ks : List K) → times j (remove k ks) ≡ (if e.beq k j then 0 else times j ks)
  times-remove k j [] = ground arith
  times-remove k j (x ∷ xs) =
      ground (arith, times-remove k j xs, e.beq_iff x k, e.beq_iff x j, e.beq_iff k j)

  contains_eq : (k j : K) (ks : List K) → e.beq k j ≡ true → contains j ks ≡ contains k ks
  contains_eq k j ks h = rw ((e.beq_iff k j).0 h)

  is_nil-contains : (k : K) (ks : List K) → is_nil ks ≡ true → contains k ks ≡ false
  is_nil-contains k [] h = refl
  is_nil-contains k (x ∷ xs) h = cc

  pub member-update :
      (b : Bool) (w t : ℕ) (k j : K) (m : Subs K)
      → member t j (update b w k m) ≡ (if (w == t) && e.beq k j then b else member t j m)
  unfolding update add_sub remove_sub
  member-update true w t k j m = added (lookup w m) refl
    where
      added :
          (o : Option (List K))
          → lookup w m ≡ o
          → member t j (add_sub w k o m) ≡ (if (w == t) && e.beq k j then true else member t j m)
      added none h = ground (arith, lookup-insert w t (k ∷ []) m, ==_iff w t)
      added (some ks) h =
          ground (arith, lookup-insert w t (k ∷ ks) m, ==_iff w t, contains_eq k j ks)
  member-update false w t k j m = removed (lookup w m) refl
    where
      removed :
          (o : Option (List K))
          → lookup w m ≡ o
          → member t j (remove_sub w k o m)
            ≡ (if (w == t) && e.beq k j then false else member t j m)
      removed none h = ground (arith, ==_iff w t)
      removed (some ks) h = ground (
        arith,
        lookup-insert w t (remove k ks) m,
        lookup-delete w t m,
        ==_iff w t,
        contains_eq k j ks,
        contains-remove k j ks,
        is_nil-contains j (remove k ks),
      )

  -- Each type has a set, and none is empty.
  pub record IsSets (m : Subs K) : Type ℓ where
    pub once : (t : ℕ) → Once (elems (lookup t m))
    pub full : (t : ℕ) → lookup t m ≢ some []

  Once-cons : (k : K) (ks : List K) → contains k ks ≡ false → Once ks → Once (k ∷ ks)
  Once-cons k ks h o j = ground (arith, o j, contains_eq k j ks, e.beq_iff k j)

  Once-remove : (k : K) (ks : List K) → Once ks → Once (remove k ks)
  Once-remove k ks o j = ground (arith, o j, times-remove k j ks, contains-remove k j ks)

  is_nil-some : (ks : List K) → is_nil ks ≡ false → some ks ≢ some []
  is_nil-some [] h e = cc
  is_nil-some (x ∷ xs) h e = cc

  -- A write of a set to one type.
  insert-IsSets :
      (w : ℕ) (ks : List K) (m : Subs K)
      → Once ks
      → is_nil ks ≡ false
      → IsSets m
      → IsSets (insert w ks m)
  insert-IsSets w ks m o n s = record {
    once = λ t j. ground (arith, lookup-insert w t ks m, o j, s.once t j);
    full = λ t h. ground (arith, lookup-insert w t ks m, s.full t, is_nil-some ks n);
  }

  delete-IsSets : (w : ℕ) (m : Subs K) → IsSets m → IsSets (delete w m)
  delete-IsSets w m s = record {
    once = λ t j. ground (arith, lookup-delete w t m, s.once t j);
    full = λ t h. ground (arith, lookup-delete w t m, s.full t);
  }

  pub update-IsSets : (b : Bool) (w : ℕ) (k : K) (m : Subs K) → IsSets m → IsSets (update b w k m)
  unfolding update add_sub remove_sub
  update-IsSets true w k m s = added (lookup w m) refl
    where
      added : (o : Option (List K)) → lookup w m ≡ o → IsSets (add_sub w k o m)
      added none h = insert-IsSets w (k ∷ []) m (Once-cons k [] refl (λ j. refl)) refl s
      added (some ks) h = elim (Bool-cases (contains k ks)) [
        | inl c ↦ rw c s
        | inr c ↦ rw c (insert-IsSets w (k ∷ ks) m (Once-cons k ks c (rw h at (s.once w))) refl s)
      ]
  update-IsSets false w k m s = removed (lookup w m) refl
    where
      removed : (o : Option (List K)) → lookup w m ≡ o → IsSets (remove_sub w k o m)
      removed none h = s
      removed (some ks) h = elim (Bool-cases (contains k ks)) [
        | inr c ↦ rw c s
        | inl c ↦ elim (Bool-cases (is_nil (remove k ks))) [
          | inl n ↦ rw (c, n) (delete-IsSets w m s)
          | inr n ↦
              rw (c, n)
                (insert-IsSets w (remove k ks) m (Once-remove k ks (rw h at (s.once w))) n s)
        ]
      ]
