-- ===== src/Windows/Http.antt =====
-- `DoRequest` and `HttpGet` of src/transport/http_winhttp.cpp. The loop over the body runs on fuel.
pub mod Responses
use sdk_windows.Prelude.{
  ℕ, zero, suc, ◌+◌, Bool, not, List, [], ◌∷◌, ◌++◌, Bytes, Text, codes, take, Option, none, some,
  Outcome, ok, stuck, ◌>>=◌, ltb, if◌then◌else◌,
}
use sdk_windows.Windows.{WinHttp}

pub record HttpResponse : Type 0 where
  pub status_code : ℕ
  pub body : Text

-- A failure before a response: the status stays 0, and the body is a diagnostic.
abbrev pub no_response : Text → HttpResponse
no_response reason = record {
  status_code = 0;
  body = codes "{\"error\":\"" ++ (reason ++ codes "\"}");
}

unfoldable pub body_loop : ℕ → WinHttp → Text → ℕ → Bytes → Outcome Bytes
body_loop zero api url round body = stuck
body_loop (suc fuel) api url round body =
    let on = λ (available : ℕ).
      let (read, size) = api.read_data url round available in
      body_loop fuel api url (suc round) (body ++ take size read) in
    elim (api.data_available url round) [
      | none ↦ ok body
      | some available ↦ if ltb 0 available then on available else ok body
    ]

unfoldable pub do_request : ℕ → WinHttp → Text → Text → Bytes → Outcome HttpResponse
do_request fuel api url verb contents = elim (api.crack_url url) [
  | none ↦ ok (no_response (codes "Failed to parse URL"))
  | some is_https ↦
      let answered : Outcome HttpResponse = (do
        body ← body_loop fuel api url 0 []
        ok (record { status_code = api.status_code url; body = body })) in
      if not api.open_session
      then ok (no_response (codes "WinHttpOpen failed"))
      else if not (api.connect url)
      then ok (no_response (codes "WinHttpConnect failed"))
      else if not (api.open_request url verb is_https)
      then ok (no_response (codes "WinHttpOpenRequest failed"))
      else if not (api.send_request url contents)
      then ok (no_response (codes "WinHttpSendRequest failed"))
      else if not (api.receive_response url)
      then ok (no_response (codes "WinHttpReceiveResponse failed"))
      else answered
]

unfoldable pub http_get : ℕ → WinHttp → Text → Outcome HttpResponse
http_get fuel api url = do_request fuel api url (codes "GET") []
