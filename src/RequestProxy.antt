-- ===== src/RequestProxy.antt =====
-- request_proxy.go: the actor that forwards a request from outside the actors, and the goroutines
-- that wait for its response. `RequestAsync` and `system.Request` belong to the actor library: it
-- makes a channel of capacity 1 for each request, and calls the callback of `RequestAsync` once at
-- most, with the response or with the error of the timeout.
pub mod Answers
mod Tests
use dvactor.Base.{
  ℕ, ◌+◌, ◌*◌, ◌^◌, ◌≡◌, Bool, true, false, Option, none, some, List, [], ◌∷◌, ◌++◌, length, ltb,
  if◌then◌else◌, ◌==◌,
}
use dvactor.Vactor.{Ref, Value, Response}

-- `RequestProxyTimeout`, a `time.Duration` in nanoseconds.
abbrev pub request_proxy_timeout : ℕ
request_proxy_timeout = 10 ^ 9 * 30

-- A call of `ctx.RequestAsync`; of its callback, the channel that it writes to.
pub record Ask (P : Type 0) : Type 0 where
  pub to : Ref
  pub message : Value P
  pub timeout : ℕ
  pub rsp_chan : ℕ

-- A Go channel with a buffer.
pub record Chan (P : Type 0) : Type 0 where
  pub capacity : ℕ
  pub items : List (Response P)

module _ {P : Type 0} where
  -- `RequestProxy.OnMessage`: what it asks for. `outer_request` is `*OuterRequest`.
  unfoldable pub on_message : Value P → List (Ask P)
  on_message (Value.outer_request to message rsp_chan) =
      record { to = to; message = message; timeout = request_proxy_timeout; rsp_chan = rsp_chan }
      ∷ []
  on_message _ = []

  abbrev pub put_chan : ℕ → Chan P → (ℕ → Chan P) → ℕ → Chan P
  put_chan c chan chans i = if i == c then chan else chans i

  -- A write to a channel; none if it waits.
  unfoldable pub write_chan : Response P → Chan P → Option (Chan P)
  write_chan rsp chan =
      if ltb (length chan.items) chan.capacity
      then some (record chan { items = chan.items ++ (rsp ∷ []) })
      else none

  -- The callback that `OnMessage` gives to `RequestAsync`.
  unfoldable pub callback : Ask P → Value P → Option ℕ → (ℕ → Chan P) → Option (Chan P)
  unfolding write_chan
  callback ask msg err chans =
      write_chan (record { error = err; message = msg }) (chans ask.rsp_chan)

-- The proxies of a system, and those who wait: the requests under way, those that `RequestAsync` has
-- not answered, the channels; and for the record, what was read from each channel.
pub record World (P : Type 0) : Type 0 where
  pub sent : List (Value P)
  pub asked : List (Ask P)
  pub chans : ℕ → Chan P
  pub made : List ℕ
  pub taken : ℕ → List (Response P)

-- How often a channel was made.
abbrev pub made_times : ℕ → List ℕ → ℕ
made_times c [] = 0
made_times c (d ∷ ds) = (if d == c then 1 else 0) + made_times c ds

module _ {P : Type 0} where
  abbrev pub quiet : World P
  quiet = record {
    sent = [];
    asked = [];
    chans = λ c. record { capacity = 0; items = [] };
    made = [];
    taken = λ c. [];
  }

  -- Anyone may request at any time; messages reach the proxies, the library answers and the waiting
  -- goroutines read in any order. A goroutine that its own timeout takes away reads nothing.
  pub data Step (w : World P) : World P → Type 0 where
    requested :
        (to : Ref) (message : Value P) (c : ℕ)
        → made_times c w.made ≡ 0
        → Step w (record w {
          sent = Value.outer_request to message c ∷ w.sent;
          chans = put_chan c (record { capacity = 1; items = [] }) w.chans;
          made = c ∷ w.made;
        })
    -- A message of the actor library, such as the start of the actor.
    told : (m : Value P) → on_message m ≡ [] → Step w (record w { sent = m ∷ w.sent })
    handled :
        (before after : List (Value P)) (m : Value P)
        → w.sent ≡ before ++ (m ∷ after)
        → Step w (record w { sent = before ++ after; asked = on_message m ++ w.asked })
    answered :
        (before after : List (Ask P)) (ask : Ask P) (msg : Value P) (err : Option ℕ) {chan : Chan P}
        → w.asked ≡ before ++ (ask ∷ after)
        → callback ask msg err w.chans ≡ some chan
        → Step w (record w { asked = before ++ after; chans = put_chan ask.rsp_chan chan w.chans })
    read :
        (c : ℕ) (rsp : Response P) (rest : List (Response P))
        → (w.chans c).items ≡ rsp ∷ rest
        → Step w (record w {
          chans = put_chan c (record { capacity = (w.chans c).capacity; items = rest }) w.chans;
          taken = λ i. if i == c then w.taken i ++ (rsp ∷ []) else w.taken i;
        })

  pub data Reach (w : World P) : World P → Type 0 where
    here : Reach w w
    further : {u v : World P} → Reach w u → Step u v → Reach w v
