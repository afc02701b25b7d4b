-- ===== src/Queue/Channel.antt =====
-- What the queue promises: an unbounded FIFO that can be closed, as a list and a flag.
use dvactor.Base.{ℕ, Bool, true, false, List, [], ◌∷◌, ◌++◌, length, if◌then◌else◌}

pub record Channel {ℓ} (A : Type ℓ) : Type ℓ where
  pub items : List A
  pub closed : Bool

-- The calls of the clients in the order in which they take the mutex.
pub data Call {ℓ} (A : Type ℓ) : Type ℓ where
  sends : A → Call A
  batch_sends : List A → Call A
  receives receives_batch tries tries_batch closes asks_len asks_closed : Call A

-- What a call returns; `waits` is a `Receive` that blocks.
pub data Reply {ℓ} (A : Type ℓ) : Type ℓ where
  accepted : Bool → Reply A
  value : A → Bool → Reply A
  values : List A → Bool → Reply A
  waits : Reply A
  done : Reply A
  number : ℕ → Reply A
  answer : Bool → Reply A

module _ {ℓ} {A : Type ℓ} (z : A) where
  take_one : List A → Bool → Reply A × List A
  take_one [] true = (value z false, [])
  take_one [] false = (waits, [])
  take_one (x ∷ xs) closed = (value x true, xs)

  take_all : List A → Bool → Reply A × List A
  take_all [] true = (values [] false, [])
  take_all [] false = (waits, [])
  take_all (x ∷ xs) closed = (values (x ∷ xs) true, [])

  try_one : List A → Reply A × List A
  try_one [] = (value z false, [])
  try_one (x ∷ xs) = (value x true, xs)

  try_all : List A → Bool → Reply A × List A
  try_all [] closed = (values [] (if closed then false else true), [])
  try_all (x ∷ xs) closed = (values (x ∷ xs) true, [])

  abbrev after : Reply A × List A → Bool → Reply A × Channel A
  after (r, items) closed = (r, record { items = items; closed = closed })

  -- One call on the list.
  unfoldable pub call : Channel A → Call A → Reply A × Channel A
  unfolding take_one take_all try_one try_all
  call c (sends x) =
      if c.closed
      then (accepted false, c)
      else (accepted true, record c { items = c.items ++ (x ∷ []) })
  call c (batch_sends xs) =
      if c.closed then (accepted false, c) else (accepted true, record c { items = c.items ++ xs })
  call c receives = after (take_one c.items c.closed) c.closed
  call c receives_batch = after (take_all c.items c.closed) c.closed
  call c tries = after (try_one c.items) c.closed
  call c tries_batch = after (try_all c.items c.closed) c.closed
  call c closes = (done, record c { closed = true })
  call c asks_len = (number (length c.items), c)
  call c asks_closed = (answer c.closed, c)

  unfoldable pub run : Channel A → List (Call A) → List (Reply A)
  run c [] = []
  run c (op ∷ ops) = let (r, c') = call c op in r ∷ run c' ops
