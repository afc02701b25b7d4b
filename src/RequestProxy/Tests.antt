-- ===== src/RequestProxy/Tests.antt =====
-- A request through a proxy, step by step.
use dvactor.Base.{ℕ, ◌≡◌, refl, none, some, [], ◌∷◌}
use dvactor.Vactor.{Value}
use dvactor.RequestProxy.{
  Ask, on_message, request_proxy_timeout, put_chan, callback, World, quiet, requested, handled,
  Reach, here, further,
}
use dvactor.RequestProxy.Answers.{asked_on, answered_once}

abbrev asks : Ask ℕ
asks = record { to = none; message = Value.proto 5; timeout = request_proxy_timeout; rsp_chan = 7 }

abbrev under_way : World ℕ
under_way = record quiet {
  asked = asks ∷ [];
  chans = put_chan 7 (record { capacity = 1; items = [] }) quiet.chans;
  made = 7 ∷ [];
}

gets_there : Reach quiet under_way
unfolding on_message
gets_there =
    further (further here (requested none (Value.proto 5) 7 refl))
      (handled [] [] (Value.outer_request none (Value.proto 5) 7) refl)

answered_once_example :
    (callback asks Value.nil (some 102) under_way.chans
      ≡ some
          (record { capacity = 1; items = record { error = some 102; message = Value.nil } ∷ [] }))
    × (asked_on {P = ℕ} 7 [] ≡ 0)
    × (under_way.taken 7 ≡ [])
answered_once_example = answered_once [] [] asks Value.nil (some 102) gets_there refl
