-- ===== src/Client/Abi.antt =====
-- The calls of the ABI (src/client/rootherald_client.cpp), with the checks of their pointers there and
-- in src/client/rootherald_win.cpp. A pointer is `none` for null; an out parameter that is not null
-- has what stands there before the call, and comes back with what stands there after it. Calls come
-- one after another, as the lock of a client has it for the calls on that client; calls on two clients
-- that overlap are left out.
pub mod Outs
use sdk_windows.Prelude.{
  ℕ, ◌++◌, Bool, true, false, Text, codes, is_empty, to_string, Option, none, some, Outcome, ok,
  ◌>>=◌, if◌then◌else◌,
}
use sdk_windows.Tpm.{Tbs}
use sdk_windows.Windows.{Windows}
use sdk_windows.Client.Status.{RootHeraldStatus, success_status, invalid_arg, Answer}
use sdk_windows.Client.Enroll.{State, Call, enroll_begin, enroll_complete}
use sdk_windows.Client.Evidence.{collect_evidence}
use sdk_windows.Client.Posture.{RootHeraldPosture, zero_posture, collect_local_posture}

-- `char**`.
abbrev pub Out : Type 0
Out = Option (Option Text)

pub data RootHeraldClient : Type 0 where
  root_herald_client : RootHeraldClient

abbrev pub written : {tbs : Tbs} → Call tbs → Outcome ((RootHeraldStatus × Out) × State tbs)
written call = do ((status, json), s) ← call; ok ((status, some json), s)

-- `RootHeraldEnrollBegin`, `RootHeraldEnrollComplete` and `RootHeraldCollectEvidence`.
unfoldable pub enroll_begin_at :
    {tbs : Tbs} → ℕ → Windows → Out → State tbs → Outcome ((RootHeraldStatus × Out) × State tbs)
enroll_begin_at fuel w none s = ok ((invalid_arg, none), s)
enroll_begin_at fuel w (some old) s = written (enroll_begin fuel w s)

unfoldable pub enroll_complete_at :
    {tbs : Tbs}
    → Windows
    → Option Text
    → Out
    → State tbs
    → Outcome ((RootHeraldStatus × Out) × State tbs)
enroll_complete_at w (some challenge) (some old) s = written (enroll_complete w challenge s)
enroll_complete_at w challenge out s = ok ((invalid_arg, out), s)

-- Over the state of the process, whose device the evidence uses.
unfoldable pub collect_evidence_at :
    {tbs : Tbs}
    → ℕ
    → Windows
    → Option Text
    → Out
    → State tbs
    → Outcome ((RootHeraldStatus × Out) × State tbs)
collect_evidence_at {tbs} fuel w (some text) (some old) s = do
  ((status, json), d) ← collect_evidence tbs fuel w text s.device
  ok ((status, some json), record s { device = d })
collect_evidence_at fuel w text out s = ok ((invalid_arg, out), s)

unfoldable pub client_enroll_begin :
    {tbs : Tbs}
    → ℕ
    → Windows
    → Option RootHeraldClient
    → Out
    → State tbs
    → Outcome ((RootHeraldStatus × Out) × State tbs)
client_enroll_begin fuel w client none s = ok ((invalid_arg, none), s)
client_enroll_begin fuel w none (some old) s = ok ((invalid_arg, some none), s)
client_enroll_begin fuel w (some client) (some old) s = enroll_begin_at fuel w (some none) s

unfoldable pub client_enroll_complete :
    {tbs : Tbs}
    → Windows
    → Option RootHeraldClient
    → Option Text
    → Out
    → State tbs
    → Outcome ((RootHeraldStatus × Out) × State tbs)
client_enroll_complete w client challenge none s = ok ((invalid_arg, none), s)
client_enroll_complete w (some client) (some challenge) (some old) s =
    if is_empty challenge
    then ok ((invalid_arg, some none), s)
    else enroll_complete_at w (some challenge) (some none) s
client_enroll_complete w client challenge (some old) s = ok ((invalid_arg, some none), s)

unfoldable pub client_collect_evidence :
    {tbs : Tbs}
    → ℕ
    → Windows
    → Option Text
    → Out
    → State tbs
    → Outcome ((RootHeraldStatus × Out) × State tbs)
client_collect_evidence fuel w text none s = ok ((invalid_arg, none), s)
client_collect_evidence fuel w none (some old) s = ok ((invalid_arg, some none), s)
client_collect_evidence fuel w (some text) (some old) s =
    if is_empty text
    then ok ((invalid_arg, some none), s)
    else collect_evidence_at fuel w (some text) (some none) s

-- `RootHeraldCollectLocalPosture`, of which the out parameter is a posture.
unfoldable pub collect_local_posture_at :
    {tbs : Tbs}
    → ℕ
    → Windows
    → Option RootHeraldPosture
    → State tbs
    → Outcome ((RootHeraldStatus × Option RootHeraldPosture) × State tbs)
collect_local_posture_at fuel w none s = ok ((invalid_arg, none), s)
collect_local_posture_at {tbs} fuel w (some old) s = do
  (p, d) ← collect_local_posture tbs fuel w s.device
  ok ((success_status, some p), record s { device = d })

unfoldable pub client_collect_posture :
    {tbs : Tbs}
    → ℕ
    → Windows
    → Option RootHeraldClient
    → Option RootHeraldPosture
    → State tbs
    → Outcome ((RootHeraldStatus × Option RootHeraldPosture) × State tbs)
client_collect_posture fuel w (some client) (some old) s =
    collect_local_posture_at fuel w (some zero_posture) s
client_collect_posture fuel w client out s = ok ((invalid_arg, out), s)
