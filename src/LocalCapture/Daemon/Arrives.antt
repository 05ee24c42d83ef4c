-- ===== src/LocalCapture/Daemon/Arrives.antt =====
-- A recorded event arrives at the collector as it was recorded (recorders, daemon.go and server.go).
use bug_it.Base.{
  ℕ, zero, suc, ◌%◌, ◌^◌, ◌≤◌, ◌<◌, ◌≡◌, ◌≢◌, refl, ap, ap₂, sym, ◌∙◌, [], ◌∷◌, some, ◌==◌,
  if◌then◌else◌, arith, All, length, take_whole, copy, replicate,
}
use bug_it.Text.{Bytes}
use bug_it.Text.Trim.{trim_nul}
use bug_it.IoEvent.{IoEvent, max_payload_len, comm_len, payload_of, zeros}
use bug_it.Capture.{cut_payload, fill_event}
use bug_it.Capture.Fill.{fill_event-IsTyped, cut_payload-take}
use bug_it.Collector.Server.Posted.{Item, item_event}
use bug_it.LocalCapture.Daemon.{posted_item}

trim_nul-zeros : (n : ℕ) → trim_nul (zeros n) ≡ []
unfolding trim_nul zeros replicate
trim_nul-zeros zero = refl
trim_nul-zeros (suc n) = rw (trim_nul-zeros n) refl

-- What is kept of the rest decides what is kept of the whole.
trim_nul-same :
    (c : ℕ) (s t : Bytes) → trim_nul s ≡ trim_nul t → trim_nul (c ∷ s) ≡ trim_nul (c ∷ t)
unfolding trim_nul
trim_nul-same c s t e =
    ap (λ r. elim r [ [] ↦ if c == 0 then [] else c ∷ [] | d ∷ u ↦ c ∷ d ∷ u ]) e

abbrev joined : ℕ → Bytes → Bytes
joined c [] = if c == 0 then [] else c ∷ []
joined c (d ∷ t) = c ∷ d ∷ t

tail_same : (c : ℕ) (s t : Bytes) → joined c t ≡ c ∷ s → t ≡ s
tail_same c s [] e = ground arith
tail_same c s (d ∷ t) e = ground arith

trim_nul-joined : (c : ℕ) (s : Bytes) (t : Bytes) → trim_nul s ≡ t → trim_nul (c ∷ s) ≡ joined c t
unfolding trim_nul
trim_nul-joined c s [] e = rw e refl
trim_nul-joined c s (d ∷ t) e = rw e refl

trim_nul-tail : (c : ℕ) (s : Bytes) → trim_nul (c ∷ s) ≡ c ∷ s → trim_nul s ≡ s
trim_nul-tail c s e = tail_same c s (trim_nul s) (sym (trim_nul-joined c s (trim_nul s) refl) ∙ e)

-- A name without a NUL at its end is read back from its array.
trim_nul-copy :
    (n : ℕ) (comm : Bytes)
    → length comm ≤ n
    → trim_nul comm ≡ comm
    → trim_nul (copy (zeros n) comm) ≡ comm
trim_nul-copy zero [] h e = unfold trim_nul zeros replicate copy in refl
trim_nul-copy zero (c ∷ s) h e = absurd (omega arith)
trim_nul-copy (suc n) [] h e = (unfold copy zeros replicate in trim_nul-zeros (suc n))
trim_nul-copy (suc n) (c ∷ s) h e =
    let rest = trim_nul-copy n s (omega arith) (trim_nul-tail c s e) in
    let first : trim_nul (copy (zeros (suc n)) (c ∷ s)) ≡ trim_nul (c ∷ copy (zeros n) s) =
      unfold copy zeros replicate in refl in
    first ∙ trim_nul-same c (copy (zeros n) s) s (rest ∙ sym (trim_nul-tail c s e)) ∙ e

cut_fits : (payload : Bytes) → length payload ≤ max_payload_len → cut_payload payload ≡ payload
cut_fits payload h = cut_payload-take payload ∙ take_whole max_payload_len payload h

-- A text of ASCII.
abbrev pub IsText : Bytes → Type 0
IsText = All (λ c. c < 128)

posted_eq :
    (carry : Bytes → Bytes) (evt : IoEvent) {p : Bytes}
    → payload_of evt ≡ some p
    → posted_item carry evt
      ≡ some (record {
        timestamp_ns = evt.timestamp_ns;
        fd = evt.fd;
        is_write = evt.is_write;
        comm = carry (trim_nul evt.comm);
        payload = carry p;
      })
unfolding posted_item
posted_eq carry evt e = rw e refl

item_event_same :
    (now fd is_write later : ℕ) (payload comm : Bytes)
    → now % 2 ^ 64 ≢ 0
    → length payload ≤ max_payload_len
    → item_event
        (record {
          timestamp_ns = now % 2 ^ 64;
          fd = fd;
          is_write = is_write;
          comm = comm;
          payload = payload;
        })
        later
      ≡ fill_event now fd is_write payload comm
unfolding item_event fill_event
item_event_same now fd is_write later payload comm h small =
    let time : (if now % 2 ^ 64 == 0 then later else now % 2 ^ 64) % 2 ^ 64 ≡ now % 2 ^ 64 =
      ground arith in
    rw (cut_fits payload small) (rw time refl)

item_event_fill :
    (now fd is_write later : ℕ) (payload comm : Bytes)
    → now % 2 ^ 64 ≢ 0
    → length payload ≤ max_payload_len
    → let evt = fill_event now fd is_write payload comm in
      item_event
        (record {
          timestamp_ns = evt.timestamp_ns;
          fd = evt.fd;
          is_write = evt.is_write;
          comm = comm;
          payload = payload;
        })
        later
      ≡ evt
unfolding fill_event
item_event_fill now fd is_write later payload comm h small =
    item_event_same now fd is_write later payload comm h small

fill_comm :
    (now fd is_write : ℕ) (payload comm : Bytes)
    → length comm ≤ comm_len
    → trim_nul comm ≡ comm
    → trim_nul (fill_event now fd is_write payload comm).comm ≡ comm
unfolding fill_event
fill_comm now fd is_write payload comm short bare = trim_nul-copy comm_len comm short bare

-- An event that was recorded at a time that is not 0, with a payload of at most 2048 bytes and a name of at most 16
-- bytes without a NUL at its end, both of ASCII text, is posted by the daemon as an item from which
-- the collector's handler builds the same event, provided that JSON carries ASCII text unchanged.
pub posted_item-item_event :
    (carry : Bytes → Bytes) (now fd is_write later : ℕ) (payload comm : Bytes)
    → ((s : Bytes) → IsText s → carry s ≡ s)
    → IsText payload
    → IsText comm
    → now % 2 ^ 64 ≢ 0
    → fd < 2 ^ 32
    → is_write < 2 ^ 8
    → length payload ≤ max_payload_len
    → length comm ≤ comm_len
    → trim_nul comm ≡ comm
    → let evt = fill_event now fd is_write payload comm in
      (item : Item) × (posted_item carry evt ≡ some item) × (item_event item later ≡ evt)
posted_item-item_event carry now fd is_write later payload comm law p c time f w small short bare =
    let evt = fill_event now fd is_write payload comm in
    let (typed, bounded, read) = fill_event-IsTyped now fd is_write payload comm f w small in
    let named = ap carry (fill_comm now fd is_write payload comm short bare) ∙ law comm c in
    (
      record {
        timestamp_ns = evt.timestamp_ns;
        fd = evt.fd;
        is_write = evt.is_write;
        comm = carry (trim_nul evt.comm);
        payload = carry payload;
      },
      posted_eq carry evt {p = payload} read,
      ap₂
            (λ name text.
              item_event
                (record {
                  timestamp_ns = evt.timestamp_ns;
                  fd = evt.fd;
                  is_write = evt.is_write;
                  comm = name;
                  payload = text;
                })
                later)
            named (law payload p)
          ∙ item_event_fill now fd is_write later payload comm time small,
    )
