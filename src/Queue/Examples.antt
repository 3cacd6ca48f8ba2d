-- ===== src/Queue/Examples.antt =====
-- The theorems on the queues at two queues of two nodes and one.
use rpiosv.Base.{◌≡◌, refl, [], ◌∷◌, arith}
use rpiosv.Queue.{success, queue_append}
use rpiosv.Queue.State.{IsQueue, Frame}
use rpiosv.Queue.Insert.{queue_append-IsQueue}
use rpiosv.Samples.{store2, store2-Queues}

two : IsQueue store2 1 1001 (2001 ∷ 2002 ∷ [])
unfolding queue_append
two = store2-Queues.each 1 refl

queue_append-IsQueue_example :
    ((queue_append 1 2003 store2).0 ≡ success)
    × IsQueue (queue_append 1 2003 store2).1 1 1001 (2001 ∷ 2002 ∷ 2003 ∷ [])
    × Frame (2003 ∷ 1001 ∷ 2001 ∷ 2002 ∷ []) 1 store2 (queue_append 1 2003 store2).1
queue_append-IsQueue_example = queue_append-IsQueue two 2003 (ground arith) (ground arith)
