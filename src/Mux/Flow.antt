-- ===== src/Mux/Flow.antt =====
-- The credit windows of src/chute/mux.py between two ends: one direction of one stream, its sender
-- at one end of the connection and its receiver at the other, with the frames that are under way.
-- Both ends keep to the code; frames arrive in order, as a WebSocket connection delivers them.
pub mod Sending
pub mod Conserved
pub mod Compliance
pub mod Content
use chute.Prelude.{
  ℕ, ◌+◌, ◌-◌, ◌≤◌, ◌≡◌, List, [], ◌∷◌, ◌++◌, Bool, true, false, none, some, length, ◌≢◌, ◌⊎◌,
}
use chute.Prelude.Text.{Bytes}
use chute.Mux.Limits.{Limits}
use chute.Mux.Stream.{
  Stream, chunk, is_lane_open, new_stream, fed, taken, grant, wrote, send_run, ack_stream, Item,
  send_start, SendResult, finished, stream_closed, parked, Sender, no_sender, awaits_credit,
  awaits_write,
}

pub record Link : Type 0 where
  pub limits : Limits
  pub sender : Stream
  pub receiver : Stream
  -- DATA payloads and WINDOW_UPDATE credits under way, oldest first
  pub wire : List Bytes
  pub credits : List ℕ
  -- bytes that the consumer has read and not yet flushed downstream
  pub unflushed : ℕ
  -- all bytes handed to `Stream.send` so far, and all bytes read so far
  pub written : Bytes
  pub received : Bytes

-- A stream that both ends have just opened.
abbrev pub new_link : Limits → ℕ → Link
new_link limits sid = record {
  limits = limits;
  sender = new_stream limits sid;
  receiver = new_stream limits sid;
  wire = [];
  credits = [];
  unflushed = 0;
  written = [];
  received = [];
}

-- The DATA payload that a run of `Stream.send` hands to the transport, if it does.
abbrev pub frames_of : SendResult → List Bytes
frames_of finished = []
frames_of stream_closed = []
frames_of parked = []
frames_of (wrote payload) = payload ∷ []

-- What the coroutine in `Stream.send` has still to send.
abbrev pub unsent : Sender → Bytes
unsent no_sender = []
unsent (awaits_credit view) = view
unsent (awaits_write view) = view

-- What can happen while the stream is open at both ends: a call of `send` gets the lock, the call
-- that has it goes on behind its await, a frame arrives, and the consumer reads and flushes.
pub data Move (l : Link) (k : Link) : Type 0 where
  starts :
      (bytes : Bytes) (t : Stream) (res : SendResult)
      → l.sender.closed ≡ false
      → l.sender.sender ≡ no_sender
      → send_start bytes l.sender ≡ (t, res)
      → res ≢ stream_closed
      → k ≡ record l { sender = t; wire = l.wire ++ frames_of res; written = l.written ++ bytes }
      → Move l k
  goes_on :
      (view : Bytes) (t : Stream) (res : SendResult)
      → l.sender.closed ≡ false
      → (l.sender.sender ≡ awaits_credit view) ⊎ (l.sender.sender ≡ awaits_write view)
      → send_run view l.sender ≡ (t, res)
      → res ≢ stream_closed
      → k ≡ record l { sender = t; wire = l.wire ++ frames_of res }
      → Move l k
  delivers :
      (payload : Bytes) (rest : List Bytes)
      → l.wire ≡ payload ∷ rest
      → k ≡ record l { receiver = fed payload l.receiver; wire = rest }
      → Move l k
  reads :
      (c : Bytes) (rest : List Item)
      → l.receiver.incoming ≡ chunk c ∷ rest
      → k ≡ record l {
        receiver = taken c rest l.receiver;
        unflushed = l.unflushed + length c;
        received = l.received ++ c;
      }
      → Move l k
  flushes :
      (n : ℕ) (r : Stream)
      → n ≤ l.unflushed
      → ack_stream l.limits.window_update_threshold n l.receiver ≡ (r, none)
      → k ≡ record l { receiver = r; unflushed = l.unflushed - n }
      → Move l k
  flushes_and_credits :
      (n delta : ℕ) (r : Stream)
      → n ≤ l.unflushed
      → ack_stream l.limits.window_update_threshold n l.receiver ≡ (r, some delta)
      → k ≡ record l {
        receiver = r;
        unflushed = l.unflushed - n;
        credits = l.credits ++ (delta ∷ []);
      }
      → Move l k
  grants :
      (delta : ℕ) (rest : List ℕ)
      → l.credits ≡ delta ∷ rest
      → k ≡ record l { sender = grant delta l.sender; credits = rest }
      → Move l k

pub data Reach (l : Link) : Link → Type 0 where
  here : Reach l l
  next : {k j : Link} → Reach l k → Move k j → Reach l j
