-- ===== src/Flow/Tests.antt =====
-- The flow control on small inputs.
use gm_quic.Prelude.{ℕ, ◌+◌, ◌-◌, ◌≤◌, ◌<◌, ◌≡◌, ◌⊎◌, min, refl, [], ◌∷◌, some, arith, true}
use gm_quic.Flow.{
  ok, err, SendControler, RecvController, new_sender, new_recver, credit, post_sent, on_new_rcvd,
}
use gm_quic.Flow.Sender.{IsRising}
use gm_quic.Flow.Session.{
  Session, opened, total, Reach, start, next, Step, takes, posts, posted_lem, reach-IsRising,
  credit_lem,
}
use gm_quic.Flow.Recver.{Accepted, start, next, advertised, on_new_rcvd_lem}

-- The errors of the tests are numbers.
abbrev blocked : SendControler
blocked = record {
  sent_data = 100;
  max_data = 100;
  blocking = true;
  broker = 100 ∷ [];
  tx_wakers = 0;
}

abbrev asked : Session ℕ
asked = record {
  control = ok blocked;
  credits = record { available = 100 } ∷ [];
  posted = 0;
  granted = 100;
}

abbrev sent : Session ℕ
sent = record {
  control = ok blocked;
  credits = record { available = 40 } ∷ [];
  posted = 60;
  granted = 100;
}

asked-Step : Step (opened 100) asked
unfolding credit new_sender
asked-Step = takes (opened 100) 200 (ok blocked) (record { available = 100 }) refl

sent-Step : Step asked sent
unfolding post_sent
sent-Step = posts asked [] [] (record { available = 100 }) (record { available = 40 }) 60 refl refl

sent-Reach : Reach 100 sent
sent-Reach =
    next 100 asked sent (next 100 (opened 100) asked (start 100 (omega arith)) asked-Step) sent-Step

posted_lem_example : 60 + total (record { available = 40 } ∷ []) ≤ 100
posted_lem_example = posted_lem 100 sent sent-Reach

reach-IsRising_example :
    (blocked.sent_data ≡ 60 + total sent.credits)
    × (blocked.max_data ≡ sent.granted)
    × IsRising blocked.broker
reach-IsRising_example = reach-IsRising 100 sent blocked sent-Reach refl

credit_lem_example :
    (c : SendControler) × (credit sent.control 5
      ≡ some (ok c, ok (record { available = min (100 - (60 + 40)) 5 })))
credit_lem_example = credit_lem 100 sent blocked 5 sent-Reach refl

abbrev half : RecvController
half = record { rcvd_data = 60; max_data = 150; step = 50; broker = 150 ∷ [] }

half-Accepted : Accepted 100 (60 ∷ []) half
unfolding on_new_rcvd new_recver
half-Accepted = next 100 [] (new_recver 100) half 60 (start 100 (omega arith)) refl

on_new_rcvd_lem_example :
    ((90 + 60 ≤ 150)
      × ((c : RecvController) × (on_new_rcvd half 90 ≡ some (c, ok 90))
          × (90 + 60 + 50 ≤ advertised 100 c.broker)))
    ⊎ ((150 < 90 + 60)
        × ((c : RecvController) × (on_new_rcvd half 90 ≡ some (c, err (90 + 60 - 150)))))
on_new_rcvd_lem_example =
    on_new_rcvd_lem 100 (60 ∷ []) half 90 half-Accepted (omega arith) (omega arith)
