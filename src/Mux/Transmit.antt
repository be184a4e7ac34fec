-- ===== src/Mux/Transmit.antt =====
-- The send direction of `Stream`, src/chute/mux.py. A coroutine inside `send` runs from await to
-- await; what it does in one run is one function here.
use chute.Prelude.{ℕ, ◌+◌, [], Bool, true, false, Option, none, some, if◌then◌else◌}
use chute.Prelude.Text.{Bytes}
use chute.Protocol.{data_frame, eof_frame}
use chute.Mux.Stream.{
  Stream, Sender, no_sender, awaits_credit, awaits_write, SendResult, finished, stream_closed,
  parked, wrote, is_done, send_run, send_start,
}
use chute.Mux.State.{Mux, store, send_frame, write_stall}

-- The DATA frame of a run, if it made one.
unfoldable pub emit : ℕ → SendResult → Mux → Mux
unfolding send_frame
emit sid (wrote payload) m = send_frame data_frame sid payload m
emit sid finished m = m
emit sid stream_closed m = m
emit sid parked m = m

abbrev pub is_unlocked : Sender → Bool
is_unlocked no_sender = true
is_unlocked (awaits_credit v) = false
is_unlocked (awaits_write v) = false

abbrev pub finish_run : ℕ → Mux → Stream × SendResult → Mux × Option SendResult
finish_run o m (s', r) = (emit s'.id r (store o s' m), some r)

-- `send(data)` when it gets the lock. `none`: the lock is held, and the caller waits.
unfoldable pub send : Bytes → ℕ → Stream → Mux → Mux × Option SendResult
send payload o s m =
    if is_unlocked s.sender then finish_run o m (send_start payload s) else (m, none)

-- The coroutine that waits for credit wakes, once the event is set. `none`: nothing wakes.
unfoldable pub wake_at : Sender → ℕ → Stream → Mux → Mux × Option SendResult
wake_at no_sender o s m = (m, none)
wake_at (awaits_write view) o s m = (m, none)
wake_at (awaits_credit view) o s m =
    if s.waiter_set then finish_run o m (send_run view s) else (m, none)

unfoldable pub wake_sender : ℕ → Stream → Mux → Mux × Option SendResult
unfolding wake_at
wake_sender o s m = wake_at s.sender o s m

-- `_CREDIT_STALL_TIMEOUT` passes without a grant.
unfoldable pub stall_at : Sender → ℕ → Stream → Mux → Mux × Option SendResult
unfolding store
stall_at no_sender o s m = (m, none)
stall_at (awaits_write view) o s m = (m, none)
stall_at (awaits_credit view) o s m = (
  store o (record s { sender = no_sender })
      (record m { stats = record m.stats { credit_stall = m.stats.credit_stall + 1 } }),
  some stream_closed,
)

unfoldable pub credit_stall : ℕ → Stream → Mux → Mux × Option SendResult
unfolding stall_at
credit_stall o s m = stall_at s.sender o s m

-- The transport has taken the frame, and the loop goes on with the rest.
unfoldable pub resume_at : Sender → ℕ → Stream → Mux → Mux × Option SendResult
resume_at no_sender o s m = (m, none)
resume_at (awaits_credit view) o s m = (m, none)
resume_at (awaits_write view) o s m = finish_run o m (send_run view s)

unfoldable pub write_done : ℕ → Stream → Mux → Mux × Option SendResult
unfolding resume_at
write_done o s m = resume_at s.sender o s m

-- The transport stalls: the exception of `_send` leaves `send`, and the lock is free.
unfoldable pub fail_at : Sender → ℕ → ℕ → Stream → Mux → Mux
unfolding store
fail_at no_sender now o s m = m
fail_at (awaits_credit view) now o s m = m
fail_at (awaits_write view) now o s m =
    write_stall now s.id (store o (record s { sender = no_sender }) m)

unfoldable pub write_failed : ℕ → ℕ → Stream → Mux → Mux
unfolding fail_at
write_failed now o s m = fail_at s.sender now o s m

-- The connection is gone: `ws.send` raises `ConnectionClosed`, which leaves `_send` and `send`.
unfoldable pub drop_at : Sender → ℕ → Stream → Mux → Mux
unfolding store
drop_at no_sender o s m = m
drop_at (awaits_credit view) o s m = m
drop_at (awaits_write view) o s m = store o (record s { sender = no_sender }) m

unfoldable pub write_dropped : ℕ → Stream → Mux → Mux
unfolding drop_at
write_dropped o s m = drop_at s.sender o s m

-- `send_eof` when it gets the lock, to the await of the EOF frame.
unfoldable pub send_eof : ℕ → Stream → Mux → Mux
unfolding store send_frame
send_eof o s m =
    if is_unlocked s.sender
    then if is_done s
      then m
      else send_frame eof_frame s.id [] (store o (record s { send_ended = true }) m)
    else m
