-- ===== src/LocalCapture/Daemon.antt =====
-- The local daemon: dre-collector/pkg/localcapture/daemon.go, and the decisions of attach.go beside it.
pub mod Arrives
pub mod Latest
use bug_it.Base.{
  ℕ, ℤ, pos, ◌+ℤ◌, Bool, true, false, not, ◌&&◌, ◌||◌, List, [], ◌∷◌, ◌++◌, Option, none, some, ltb,
  leb, ◌==◌, if◌then◌else◌, ◌>>=◌, ltb_ℤ,
}
use bug_it.Text.{Bytes, codes, trim_prefix, bytes_eq}
use bug_it.Text.Search.{contains, has_suffix}
use bug_it.Text.Trim.{trim_nul}
use bug_it.Text.Path.{join}
use bug_it.Text.Split.{split_byte}
use bug_it.IoEvent.{IoEvent, payload_of}
use bug_it.Collector.Server.Posted.{Item}
use bug_it.SourceMap.{SourceRef, Store, set}
use bug_it.LocalCapture.{format_int}
use bug_it.Inspector.{is_empty_text, BackendInspector}
use bug_it.Project.{Layout, layout_for, internal_port}
use bug_it.Project.Root.{CaptureTarget}

-- The first and the last part of a list that `strings.Split` gives, which has one part at least.
abbrev last_part : Bytes → List Bytes → Bytes
last_part part [] = part
last_part part (next ∷ parts) = last_part next parts

abbrev ends : List Bytes → Bytes × Bytes
ends [] = ([], [])
ends (part ∷ parts) = (part, last_part part parts)

unfoldable pub split_host_port : Bytes → Bytes → Bytes × Bytes
split_host_port addr def_port =
    if contains addr (b':' ∷ []) then ends (split_byte b':' addr) else (codes "127.0.0.1", def_port)

unfoldable pub split_http : Bytes → Bytes → Bytes × Bytes
split_http raw def_port =
    split_host_port (trim_prefix (trim_prefix raw (codes "http://")) (codes "https://")) def_port

-- `isHTTPError`; `none` is the panic of a length beyond the payload.
unfoldable pub is_http_error : IoEvent → Option Bool
is_http_error evt =
    if not (evt.is_write == 0)
    then some false
    else payload_of evt >>= λ p. some (
        contains p (codes "HTTP/1.1 5")
        || contains p (codes "HTTP/1.0 5")
        || contains p (codes "HTTP/1.1 4")
        || contains p (codes "HTTP/1.0 4"))

-- The item of the body that `postEvent` writes. `carry` is what a text becomes in JSON and back.
unfoldable pub posted_item : (Bytes → Bytes) → IoEvent → Option Item
posted_item carry evt = payload_of evt >>= λ p. some (record {
  timestamp_ns = evt.timestamp_ns;
  fd = evt.fd;
  is_write = evt.is_write;
  comm = carry (trim_nul evt.comm);
  payload = carry p;
})

-- The answer to the post: the error of the transport, or a status.
pub data Answer : Type 0 where
  transport_error : Answer
  status : ℕ → Answer

unfoldable pub post_accepted : Answer → Bool
post_accepted transport_error = false
post_accepted (status code) = ltb code 300

-- `captureSourceRef`: the frame at the top where a debugger is connected and knows it.
unfoldable pub capture_source_ref : Option (Option SourceRef) → Option SourceRef
capture_source_ref none = none
capture_source_ref (some frame) = frame

-- The entry that an HTTP error gets.
unfoldable pub map_source : Store → ℕ → Option SourceRef → Store
map_source s fd none = s
map_source s fd (some ref) = set s (pos fd) ref.file ref.line ref.column ref.function

-- `PostIOEvent`: the source map, and whether there is no error.
unfoldable pub post_io_event :
    Store → IoEvent → Answer → Option (Option SourceRef) → Option (Store × Bool)
post_io_event s evt answer frame = payload_of evt >>= λ p.
    if not (post_accepted answer)
    then some (s, false)
    else is_http_error evt >>= λ failed.
        some (if failed then map_source s evt.fd (capture_source_ref frame) else s, true)

-- The sink of `StartDaemon`, which maps the source whether or not the event was accepted.
unfoldable pub event_sink : Store → IoEvent → Answer → Option (Option SourceRef) → Option Store
event_sink s evt answer frame = payload_of evt >>= λ p. is_http_error evt >>= λ failed.
    some (if failed then map_source s evt.fd (capture_source_ref frame) else s)

-- `triggerSnapshot`: `answered` is the path that the collector names, `none` the error of the transport;
-- `latest_there` is whether the link to the latest snapshot exists.
unfoldable pub trigger_detail : Bytes → Bytes
trigger_detail detail = if is_empty_text detail then codes "manual capture" else detail

unfoldable pub trigger_result : Layout → Option Bytes → Bool → Option Bytes
trigger_result layout answered latest_there = answered >>= λ path.
    if latest_there
    then some layout.latest_snapshot
    else if is_empty_text path
    then none
    else some path

-- `waitReady`: the answers to the requests that begin before the deadline.
unfoldable pub wait_ready : List Answer → Bool
wait_ready [] = false
wait_ready (transport_error ∷ rounds) = wait_ready rounds
wait_ready (status code ∷ rounds) =
    let rest = wait_ready rounds in if code == 200 then true else rest

-- An entry of the folder of the snapshots: its time, in nanoseconds since the zero time, where it can be read.
pub record Entry : Type 0 where
  pub name : Bytes
  pub is_dir : Bool
  pub mod_time : Option ℕ

unfoldable pub is_snapshot : Entry → Bool
is_snapshot e = not e.is_dir && has_suffix e.name (codes ".dre")

abbrev pub later_one : Entry → Option ℕ → Bytes × ℕ → Bytes × ℕ
later_one e none best = best
later_one e (some time) best = if ltb best.1 time then (e.name, time) else best

-- The loop of `LatestSnapshot`, with the name and the time of the latest so far.
unfoldable pub latest_from : List Entry → Bytes × ℕ → Bytes × ℕ
latest_from [] best = best
latest_from (e ∷ entries) best =
    latest_from entries (if is_snapshot e then later_one e e.mod_time best else best)

-- `LatestSnapshot`; `entries` is `none` where the folder cannot be read.
unfoldable pub latest_snapshot : Layout → Bool → Option (List Entry) → Option Bytes
latest_snapshot layout latest_there entries =
    if latest_there
    then some layout.latest_snapshot
    else entries >>= λ es.
        let best = latest_from es ([], 0) in
        if is_empty_text best.0 then none else some (join layout.snapshots_path best.0)

unfoldable pub snapshot_names : Bytes → List Entry → List Bytes
snapshot_names folder [] = []
snapshot_names folder (e ∷ entries) =
    let rest = snapshot_names folder entries in
    if is_snapshot e then join folder e.name ∷ rest else rest

-- `ListSnapshots` of local capture.
unfoldable pub list_local_snapshots : Layout → Option (List Entry) → Option (List Bytes)
list_local_snapshots layout entries =
    entries >>= λ es. some (snapshot_names layout.snapshots_path es)

-- How the command of `RunCapture` ends: by itself, with or without an error, or by the context.
pub data Ended : Type 0 where
  exited : Bool → Ended
  interrupted : Ended

-- The snapshots that are asked for, in order: the details of the requests, each with its result.
abbrev or_retry :
    Bool → Bytes → (Bytes → Option Bytes) → Option Bytes → List Bytes → List Bytes × Option Bytes
or_retry save_on_exit detail take_snapshot (some path) asked = (asked, some path)
or_retry save_on_exit detail take_snapshot none asked =
    if save_on_exit then (asked ++ detail ∷ [], take_snapshot detail) else (asked, none)

-- The end of `RunCapture`: the requests made, the path, and whether the command's error is returned.
unfoldable pub finish_capture_run :
    Bool → Bytes → (Bytes → Option Bytes) → Ended → List Bytes × Option Bytes × Bool
finish_capture_run save_on_exit detail take_snapshot (exited true) =
    (codes "capture exit" ∷ [], take_snapshot (codes "capture exit"), true)
finish_capture_run save_on_exit detail take_snapshot (exited false) =
    let first = if save_on_exit then take_snapshot (codes "capture exit") else none in
    let asked = if save_on_exit then codes "capture exit" ∷ [] else [] in
    let r = or_retry save_on_exit detail take_snapshot first asked in (r.0, r.1, false)
finish_capture_run save_on_exit detail take_snapshot interrupted =
    let first = if save_on_exit then take_snapshot (codes "interrupt") else none in
    let asked = if save_on_exit then codes "interrupt" ∷ [] else [] in
    let r = or_retry save_on_exit detail take_snapshot first asked in (r.0, r.1, false)

pub data AutoError : Type 0 where
  already_listening : ℤ → AutoError
  internal_in_use : ℤ → AutoError

-- The checks of `RunCaptureAuto`; `none` goes on to `RunCapture`.
unfoldable pub check_auto : (ℤ → Bool) → CaptureTarget → Option AutoError
check_auto is_listening target =
    let internal = internal_port target.public_port in
    if is_listening target.public_port
    then some (already_listening target.public_port)
    else if is_listening internal
    then some (internal_in_use internal)
    else none

-- `PublicURL`
unfoldable pub public_url : CaptureTarget → Bytes
public_url target = codes "http://127.0.0.1:" ++ format_int target.public_port

-- How `RunAttachRecord` goes on once the inspector has been looked for: with it, on the preload alone, or not.
pub data AttachPlan : Type 0 where
  attach : BackendInspector → AttachPlan
  preload_only : AttachPlan
  give_up : AttachPlan

unfoldable pub attach_plan : Option BackendInspector → Bool → AttachPlan
attach_plan (some insp) preload_active = attach insp
attach_plan none preload_active = if preload_active then preload_only else give_up

-- The snapshot at the end of `RunAttachRecord`: the requests made and the path.
unfoldable pub finish_attach : Bool → Bytes → (Bytes → Option Bytes) → List Bytes × Option Bytes
finish_attach save_on_exit detail take_snapshot =
    let first = if save_on_exit then take_snapshot (codes "interrupt") else none in
    let asked = if save_on_exit then codes "interrupt" ∷ [] else [] in
    or_retry save_on_exit detail take_snapshot first asked
