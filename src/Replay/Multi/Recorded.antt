-- ===== src/Replay/Multi/Recorded.antt =====
-- The recordings of the local proxy, played back (pkg/recordproxy/proxy.go against multi.go).
use bug_it.Base.{ℕ, ◌≡◌, Bool, false, some, arith, Bool-cases, inl, inr}
use bug_it.Text.{Bytes}
use bug_it.IoEvent.{IoEvent}
use bug_it.Capture.{RecordProxy, record_request, record_response, emit, fill_event}
use bug_it.Replay.Multi.{is_match, is_free_response}

emitted_kind :
    (s : RecordProxy) (is_write : ℕ) (wire : Bytes) (now : ℕ) (evt : IoEvent)
    → (emit s is_write wire now).1 ≡ some evt
    → evt.is_write ≡ is_write
unfolding emit fill_event
emitted_kind s is_write wire now evt e = elim (Bool-cases s.has_on_event) [
  | inl on ↦ ground arith
  | inr off ↦ ground arith
]

write_unmatched :
    (consumed : ℕ → Bool) (key host : Bytes) (i : ℕ) (evt : IoEvent)
    → evt.is_write ≡ 1
    → is_match consumed key host i evt ≡ some false
unfolding is_match
write_unmatched consumed key host i evt e = ground arith

read_unserved :
    (consumed : ℕ → Bool) (i : ℕ) (evt : IoEvent)
    → evt.is_write ≡ 0
    → is_free_response consumed i evt ≡ false
unfolding is_free_response
read_unserved consumed i evt e = rw e

-- The recorder marks a request as a write and a response as a read, while the replay looks for requests
-- among the reads and serves writes: an event of a recorded request is never matched, and an event of a
-- recorded response is never served.
pub record-unmatched :
    (s : RecordProxy) (wire : Bytes) (now : ℕ) (consumed : ℕ → Bool) (key host : Bytes) (i : ℕ)
    (evt : IoEvent)
    → (((record_request s wire now).1 ≡ some evt) → is_match consumed key host i evt ≡ some false)
      × (((record_response s wire now).1 ≡ some evt) → is_free_response consumed i evt ≡ false)
unfolding record_request record_response
record-unmatched s wire now consumed key host i evt = (
  λ e. write_unmatched consumed key host i evt (emitted_kind s 1 wire now evt e),
  λ e. read_unserved consumed i evt (emitted_kind s 0 wire now evt e),
)
