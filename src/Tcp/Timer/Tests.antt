-- ===== src/Tcp/Timer/Tests.antt =====
-- A wheel of two buckets with an entry that is due and one that is not.
use yayatht.Base.{ℕ}
use yayatht.Base.{subst}
use yayatht.Base.{[], ◌∷◌, arith}
use yayatht.Tcp.Timer.{TimerEntry, TimerWheel, retransmit, schedule, new}
use yayatht.Tcp.Timer.Rests.{Inv}
use yayatht.Tcp.Timer.Expiry.{Expired, expire-Expired}
use yayatht.Tcp.Timer.Start.{new-Inv, schedule-Inv}

abbrev soon : TimerEntry ℕ
soon = record { key = 1; kind = retransmit; deadline = 15; sequence = 3 }

abbrev late : TimerEntry ℕ
late = record { key = 2; kind = retransmit; deadline = 38; sequence = 4 }

abbrev bare : TimerWheel ℕ
bare = record { epoch = 0; tick = 10; cursor = 0; buckets = [] ∷ [] ∷ [] }

abbrev wheel : TimerWheel ℕ
wheel = record { epoch = 0; tick = 10; cursor = 0; buckets = [] ∷ (soon ∷ late ∷ []) ∷ [] }

wheel-Inv : Inv wheel
unfolding new
wheel-Inv =
    let made = (new-Inv {T = ℕ} 0 10 2).0 (omega arith) in
    let bare-Inv : Inv bare = subst Inv {x = made.0} (ground (arith, made.1)) made.2 in
    schedule-Inv (schedule bare soon) late (schedule-Inv bare soon bare-Inv)

expire-Expired_example : Expired wheel 20 []
expire-Expired_example = expire-Expired wheel 20 [] wheel-Inv (omega arith) (omega arith)
