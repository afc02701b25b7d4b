-- ===== src/Cluster/Client/Tests.antt =====
-- Runs of the client; a reply to connection k is `0`, success.
use dvactor.Base.{◌≤◌, ◌+◌, ◌%◌, ◌^◌, ◌≡◌, ◌⊎◌, inl, inr, refl, true, false, none, some, [], ◌∷◌}
use dvactor.Cluster.Client.{
  noticed, Step, notices, another_up, waiting, storing, ready, resetting, unmade, up, lost, over,
  Client, new_cluster_client, move, dial, dialed, requested, answered, on_disconnect, on_message,
  answers, dials, dial_ends, requests, takes_reply, takes_end, stores, raises, receives, loses,
  reports, Reach, here, further,
}
use dvactor.Cluster.Client.Right.{weight}
use dvactor.Cluster.Client.Shown.{ShowsClient, client_shows, end_not_missed}
use dvactor.Cluster.Client.Withdraws.{counts, Holding, still, goes_on, end_withdraws}
use dvactor.Cluster.{add_one}
use dvactor.Fixtures.{types, numbers, blank, no_pkgs, one_byte}

says_yes : on_message types numbers no_pkgs one_byte blank 11 (0 ∷ []) ≡ answers true
unfolding on_message
says_yes = refl

-- Connection 0 has sent its reply.
abbrev replied : Client
replied = record {
  place = waiting;
  cli = some 0;
  disconnect_chan = false;
  register_chan = some true;
  info_cli = none;
  connected = 0;
  made = 1;
  phase = move 0 up (λ k. unmade);
  others = 0;
}

replied_run : Reach types numbers no_pkgs one_byte blank new_cluster_client replied
unfolding new_cluster_client dial dialed requested
replied_run =
    further
      (further (further (further here (dials refl)) (dial_ends 0 true refl refl))
        (requests 0 true refl refl))
      (receives 0 11 (0 ∷ []) true (inl refl) says_yes refl)

-- The goroutine is ready, and the connection is lost.
abbrev gone : Client
gone = record {
  place = ready;
  cli = some 0;
  disconnect_chan = true;
  register_chan = none;
  info_cli = some 0;
  connected = 1;
  made = 1;
  phase = move 0 over (move 0 lost (move 0 up (λ k. unmade)));
  others = 0;
}

gone_run : Reach types numbers no_pkgs one_byte blank new_cluster_client gone
unfolding answered on_disconnect
gone_run =
    further
      (further
        (further (further (further replied_run (takes_reply 0 true refl refl refl)) (stores refl))
          (raises refl))
        (loses 0 refl))
      (reports 0 refl refl)

client_shows_example : ShowsClient ready gone × (gone.connected ≡ (0 + weight ready) % 2 ^ 32)
client_shows_example = client_shows types numbers no_pkgs one_byte blank gone gone_run

end_not_missed_example : (gone.disconnect_chan ≡ true) ⊎ (gone.place ≡ resetting)
end_not_missed_example =
    end_not_missed types numbers no_pkgs one_byte blank gone 0 gone_run refl refl

-- The goroutine has noticed the end, and another goroutine has counted a system.
abbrev noticed_gone : Client
noticed_gone = record (noticed gone) { connected = add_one gone.connected; others = 1 }

holds_on : Holding types numbers no_pkgs one_byte blank 0 gone 1 noticed_gone
holds_on = goes_on (goes_on still (notices refl refl) refl) another_up refl

end_withdraws_example :
    (1 ≤ 4)
    × (y : Client) × (st : Step types numbers no_pkgs one_byte blank noticed_gone y) × (counts types
          numbers no_pkgs one_byte blank st
        ≡ 1)
end_withdraws_example =
    end_withdraws types numbers no_pkgs one_byte blank 0 gone_run refl (inr refl) holds_on

-- The reply and the end of connection 0 have both arrived, and the `select` takes the end. The reply
-- is then taken for one of connection 1, which has sent nothing.
abbrev mistaken : Client
mistaken = record {
  place = storing;
  cli = some 1;
  disconnect_chan = false;
  register_chan = none;
  info_cli = none;
  connected = 0;
  made = 2;
  phase = move 1 up (move 0 over (move 0 lost (move 0 up (λ k. unmade))));
  others = 0;
}

mistaken_run : Reach types numbers no_pkgs one_byte blank new_cluster_client mistaken
unfolding dial dialed requested answered on_disconnect
mistaken_run =
    further
      (further
        (further
          (further
            (further (further (further replied_run (loses 0 refl)) (reports 0 refl refl))
              (takes_end refl refl))
            (dials refl))
          (dial_ends 1 true refl refl))
        (requests 1 true refl refl))
      (takes_reply 1 true refl refl refl)
