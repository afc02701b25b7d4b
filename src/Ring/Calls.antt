-- ===== src/Ring/Calls.antt =====
-- The ring buffer as its users see it: no sequence of calls tells it from an unbounded list.
use dvactor.Base.{
  ℕ, zero, suc, ◌-◌, ◌≡◌, inl, inr, refl, ap, ap₂, sym, ◌∙◌, Bool, List, [], ◌∷◌, ◌++◌, length,
  arith, ltb, ◌==◌, Bool-cases, returns,
}
use native.Mathlib.Nat.{mod-eq_of_lt}
use dvactor.Ring.{
  RingBuffer, pos, new_ring_buffer, fresh, is_empty, is_full, grow, write_tail, push, reserve,
  write_all, push_batch, pop, pop_all, peek, clear, get_all,
}
use dvactor.Ring.Inv.{IsValid, fresh-IsValid, pop-IsValid}
use dvactor.Ring.Contents.{contents, length-contents}
use dvactor.Ring.Refine.{dequeue, push_refines, pop_refines, peek-pop}
use dvactor.Ring.Batch.{push_batch_refines, pop_all_refines, get_all-contents}

pub data Call {ℓ} (A : Type ℓ) : Type ℓ where
  pushes : A → Call A
  pushes_batch : List A → Call A
  pops : Call A
  pops_all : Call A
  peeks : Call A
  gets_all : Call A
  asks_empty : Call A
  asks_count : Call A
  clears : Call A

pub data Reply {ℓ} (A : Type ℓ) : Type ℓ where
  done : Reply A
  value : A → Bool → Reply A
  values : List A → Reply A
  answer : Bool → Reply A
  number : ℕ → Reply A

module _ {ℓ} {A : Type ℓ} where
  -- A call of a method, with its reply.
  pub serve : RingBuffer A → Call A → Reply A × RingBuffer A
  serve rb (pushes x) = (done, push rb x)
  serve rb (pushes_batch xs) = (done, push_batch rb xs)
  serve rb pops = let (x, ok, rb') = pop rb in (value x ok, rb')
  serve rb pops_all = let (xs, rb') = pop_all rb in (values xs, rb')
  serve rb peeks = let (x, ok) = peek rb in (value x ok, rb)
  serve rb gets_all = (values (get_all rb), rb)
  serve rb asks_empty = (answer (is_empty rb), rb)
  serve rb asks_count = (number rb.count, rb)
  serve rb clears = (done, clear rb)

  -- The same call on a list that only grows and shrinks; `z` is the zero value.
  unfoldable pub call : A → List A → Call A → Reply A × List A
  call z l (pushes x) = (done, l ++ (x ∷ []))
  call z l (pushes_batch xs) = (done, l ++ xs)
  call z l pops = let (x, ok, l') = dequeue z l in (value x ok, l')
  call z l pops_all = (values l, [])
  call z l peeks = let (x, ok, l') = dequeue z l in (value x ok, l)
  call z l gets_all = (values l, l)
  call z l asks_empty = (answer (length l == 0), l)
  call z l asks_count = (number (length l), l)
  call z l clears = (done, [])

  pub serve_all : RingBuffer A → List (Call A) → List (Reply A)
  serve_all rb [] = []
  serve_all rb (op ∷ ops) = let (r, rb') = serve rb op in r ∷ serve_all rb' ops

  unfoldable pub call_all : A → List A → List (Call A) → List (Reply A)
  call_all z l [] = []
  call_all z l (op ∷ ops) = let (r, l') = call z l op in r ∷ call_all z l' ops

  -- A valid buffer with a given zero value.
  record IsRing (z : A) (rb : RingBuffer A) : Type ℓ where
    valid : IsValid rb
    blank : rb.zero_value ≡ z

  zero_value-grow : (rb : RingBuffer A) → (grow rb).zero_value ≡ rb.zero_value
  unfolding grow
  zero_value-grow rb = refl

  zero_value-push : (rb : RingBuffer A) (x : A) → (push rb x).zero_value ≡ rb.zero_value
  unfolding push write_tail is_full grow
  zero_value-push rb x = ground arith

  zero_value-reserve :
      (fuel n : ℕ) (rb : RingBuffer A) → (reserve fuel n rb).zero_value ≡ rb.zero_value
  unfolding reserve grow
  zero_value-reserve zero n rb = refl
  zero_value-reserve (suc fuel) n rb = elim (Bool-cases (ltb (rb.size - rb.count) n)) [
    | inl e ↦ rw (e, reserve) (zero_value-reserve fuel n (grow rb))
    | inr e ↦ rw (e, reserve)
  ]

  zero_value-write_all :
      (rb : RingBuffer A) (xs : List A) → (write_all rb xs).zero_value ≡ rb.zero_value
  unfolding write_all write_tail
  zero_value-write_all rb [] = refl
  zero_value-write_all rb (x ∷ xs) = zero_value-write_all (write_tail rb x) xs

  zero_value-push_batch :
      (rb : RingBuffer A) (xs : List A) → (push_batch rb xs).zero_value ≡ rb.zero_value
  unfolding push_batch
  zero_value-push_batch rb [] = refl
  zero_value-push_batch rb (x ∷ xs) =
      let n = length (x ∷ xs) in
      zero_value-write_all (reserve n n rb) (x ∷ xs) ∙ zero_value-reserve n n rb

  zero_value-pop : (rb : RingBuffer A) → (pop rb).2.zero_value ≡ rb.zero_value
  unfolding pop is_empty
  zero_value-pop rb = ground arith

  zero_value-pop_all : (rb : RingBuffer A) → (pop_all rb).1.zero_value ≡ rb.zero_value
  unfolding pop_all is_empty
  zero_value-pop_all rb = ground arith

  clear-IsValid : {rb : RingBuffer A} → IsValid rb → IsValid (clear rb)
  unfolding clear
  clear-IsValid {rb} v = record {
    storage = v.storage;
    positive = v.positive;
    head_in = v.positive;
    count_in = omega arith;
    tail_at = omega (arith, mod-eq_of_lt {n = 0} {m = rb.size} v.positive);
  }

  -- What it is for a call of the buffer to do what the list does.
  record Serves (z : A) (rb : RingBuffer A) (op : Call A) : Type ℓ where
    replies : call z (contents rb) op ≡ ((serve rb op).0, contents (serve rb op).1)
    keeps : IsRing z (serve rb op).1

  pop-Serves : {z : A} {rb : RingBuffer A} → IsRing z rb → Serves z rb pops
  unfolding serve call
  pop-Serves {z} {rb} v = record {
    replies =
        ap (λ (p : A × Bool × List A). (value p.0 p.1, p.2))
          (ap (λ a. dequeue a (contents rb)) (sym v.blank) ∙ sym (pop_refines v.valid));
    keeps = record { valid = pop-IsValid v.valid; blank = zero_value-pop rb ∙ v.blank };
  }

  peek-Serves : {z : A} {rb : RingBuffer A} → IsRing z rb → Serves z rb peeks
  unfolding serve call
  peek-Serves {z} {rb} v = record {
    replies =
        ap (λ (p : A × Bool × List A). (value p.0 p.1, contents rb))
          (ap (λ a. dequeue a (contents rb)) (sym v.blank) ∙ sym (pop_refines v.valid))
        ∙ ap (λ (p : A × Bool). (value p.0 p.1, contents rb)) (sym (peek-pop rb));
    keeps = v;
  }

  serve-Serves : {z : A} {rb : RingBuffer A} (op : Call A) → IsRing z rb → Serves z rb op
  unfolding serve call is_empty clear
  serve-Serves {z} {rb} (pushes x) v = record {
    replies = ap (λ l. (done, l)) (sym (push_refines x v.valid).1);
    keeps = record { valid = (push_refines x v.valid).0; blank = zero_value-push rb x ∙ v.blank };
  }
  serve-Serves {z} {rb} (pushes_batch xs) v = record {
    replies = ap (λ l. (done, l)) (sym (push_batch_refines xs v.valid).1);
    keeps = record {
      valid = (push_batch_refines xs v.valid).0;
      blank = zero_value-push_batch rb xs ∙ v.blank;
    };
  }
  serve-Serves pops v = pop-Serves v
  serve-Serves {z} {rb} pops_all v =
      let (same, none_left, valid) = pop_all_refines v.valid in
      record {
        replies = ap₂ (λ xs l. (values xs, l)) (sym same) (sym none_left);
        keeps = record { valid = valid; blank = zero_value-pop_all rb ∙ v.blank };
      }
  serve-Serves peeks v = peek-Serves v
  serve-Serves {z} {rb} gets_all v = record {
    replies = ap (λ xs. (values xs, contents rb)) (sym (get_all-contents rb));
    keeps = v;
  }
  serve-Serves {z} {rb} asks_empty v = record {
    replies = ap (λ n. (answer (n == 0), contents rb)) (length-contents rb);
    keeps = v;
  }
  serve-Serves {z} {rb} asks_count v = record {
    replies = ap (λ n. (number n, contents rb)) (length-contents rb);
    keeps = v;
  }
  serve-Serves clears v = record {
    replies = refl;
    keeps = record { valid = clear-IsValid v.valid; blank = v.blank };
  }

  serve_all-call_all :
      {z : A} {rb : RingBuffer A} (ops : List (Call A))
      → IsRing z rb
      → serve_all rb ops ≡ call_all z (contents rb) ops
  unfolding serve_all call_all
  serve_all-call_all [] v = refl
  serve_all-call_all {z} {rb} (op ∷ ops) v =
      let s = serve-Serves op v in
      ap (λ l. (serve rb op).0 ∷ l) (serve_all-call_all {rb = (serve rb op).1} ops s.keeps)
      ∙ ap (λ (p : Reply A × List A). p.0 ∷ call_all z p.1 ops) (sym s.replies)

  -- A new buffer of a positive size, used by any sequence of calls of its methods, gives the replies
  -- of a list without bound that is empty at first: `Push` and `PushBatch` add at its end, `Pop`
  -- takes its first element, `PopAll` takes all, `Clear` drops all, and `Peek`, `GetAll`, `IsEmpty`
  -- and `Count` only look.
  pub new_ring_buffer_refines :
      (z : A) (n : ℕ) (ops : List (Call A))
      → (rb : RingBuffer A) × (new_ring_buffer z (pos (suc n)) ≡ returns rb)
        × (serve_all rb ops ≡ call_all z [] ops)
  unfolding new_ring_buffer fresh
  new_ring_buffer_refines z n ops = (
    fresh z (suc n),
    refl,
    serve_all-call_all ops (record { valid = fresh-IsValid z (suc n) (omega arith); blank = refl }),
  )
