-- ===== src/Port/Poller/Tests.antt =====
-- Rounds of the thread behind a port.
use twinleaf_rust.Shared.{
  some, inr, arith, ◌≡◌, refl, Bool, true, false, [], ◌∷◌, map, if◌then◌else◌, ok, err, some,
}
use twinleaf_rust.Port.Errors.{not_ready, must_drain, full, unsupported}
use twinleaf_rust.Port.Poller.{
  RawPort, pkt, Poller, woken, ready, Outside, tx_loop, after_poll, on_events, on_event, check_tx,
  packet_sent,
}
use twinleaf_rust.Port.Poller.Interest.{IsCalm, IsSettled, after_poll-IsSettled}
use twinleaf_rust.Port.Poller.Queue.{Served, tx_loop_loses, after_poll-Served}
use twinleaf_rust.Util.{make_empty_heartbeat}

-- A port that takes any packet in part, and is full until it is drained. Its state is whether it is
-- full.
unfoldable slow : RawPort Bool
slow = record {
  recv = λ s. some (s, err not_ready);
  send = λ s packet. some (true, if s then err full else err must_drain);
  drain = λ s. some (false, ok tt);
  set_rate = λ s rate. some (s, err unsupported);
  max_send_interval = some 100000000;
  startup_holdoff = λ now s. false;
}

abbrev outside : Outside
outside = record { rx = λ found. true; ctl_open = true }

abbrev waiting : Poller Bool
waiting = record {
  raw = false;
  needs_draining = false;
  needs_tx_queue_check = false;
  startup = false;
  writable = false;
  last_sent = 0;
  queue = pkt make_empty_heartbeat ∷ pkt make_empty_heartbeat ∷ [];
  tx_open = true;
  passed = [];
  results = [];
}

-- After one of the two packets the port must be drained, and the other one is gone.
abbrev half_sent : Poller Bool
half_sent = record waiting { raw = true; needs_draining = true; writable = true; queue = [] }

tx_loop_loses_example :
    tx_loop slow outside 0 waiting (pkt make_empty_heartbeat ∷ map pkt (make_empty_heartbeat ∷ []))
    ≡ ok half_sent
unfolding slow
tx_loop_loses_example =
    tx_loop_loses slow outside 0 waiting true make_empty_heartbeat (make_empty_heartbeat ∷ []) refl
      refl (λ packet'. refl)

one_round : after_poll slow 1 outside 0 waiting (woken ∷ []) ≡ ok half_sent
unfolding slow after_poll on_events on_event check_tx tx_loop packet_sent
one_round = refl

after_poll-Served_example : Served slow half_sent
after_poll-Served_example =
    after_poll-Served slow 1 outside 0 waiting half_sent (woken ∷ []) (inr refl) one_round

slow-IsCalm : IsCalm slow
unfolding slow
slow-IsCalm = record {
  recv_answers = λ s e. ground arith;
  send_answers = λ s packet e. ground arith;
  drain_answers = λ s e. ground arith;
  set_rate_answers = λ s rate e. ground arith;
}

after_poll-IsSettled_example :
    IsSettled slow (after_poll slow 1 outside 0 half_sent (ready true ∷ []))
after_poll-IsSettled_example =
    after_poll-IsSettled slow 1 outside 0 half_sent (ready true) slow-IsCalm refl refl
