-- ===== src/Windows/Http/Responses.antt =====
-- Lemmas on the request of src/transport/http_winhttp.cpp: its loop over the body, and its
-- outcome.
use sdk_windows.Prelude.{
  ℕ, zero, suc, ◌+◌, ◌<◌, ◌≡◌, ◌⊎◌, inl, inr, refl, sym, ap, append-nil, append_assoc, ◌∙◌, arith,
  true, not, [], ◌++◌, Bytes, Text, codes, take, none, some, ok, Returns, returns, ltb,
  Option-cases, Bool, false,
}
use sdk_windows.Tpm.Safety.{if-Returns}
use sdk_windows.Windows.{WinHttp}
use sdk_windows.Windows.Http.{HttpResponse, no_response, body_loop, do_request, http_get}

-- What a round reads.
abbrev pub part : WinHttp → Text → ℕ → Bytes
part api url round = elim (api.data_available url round) [
  | none ↦ []
  | some available ↦
      take (api.read_data url round available).1 (api.read_data url round available).0
]

-- The parts of `n` rounds from one on.
unfoldable pub parts : WinHttp → Text → ℕ → ℕ → Bytes
parts api url round zero = []
parts api url round (suc n) = part api url round ++ parts api url (suc round) n

-- A round in which data waits, and one in which the body ends: no data, or a failed call.
abbrev pub IsWaiting : WinHttp → Text → ℕ → Type 0
IsWaiting api url round =
    (available : ℕ) × (api.data_available url round ≡ some available) × (0 < available)

abbrev pub IsEnd : WinHttp → Text → ℕ → Type 0
IsEnd api url round =
    (api.data_available url round ≡ none) ⊎ (api.data_available url round ≡ some 0)

body_loop-part :
    (api : WinHttp) (url : Text) (fuel round : ℕ) (body : Bytes)
    → IsWaiting api url round
    → body_loop (suc fuel) api url round body
      ≡ body_loop fuel api url (suc round) (body ++ part api url round)
unfolding body_loop
body_loop-part api url fuel round body (available, h, some_bytes) =
    let more : ltb 0 available ≡ true = ground arith in
    let read = take (api.read_data url round available).1 (api.read_data url round available).0 in
    let same : part api url round ≡ read = rw (h, part) refl in
    rw (h, body_loop, more)
      (ap (λ (b : Bytes). body_loop fuel api url (suc round) (body ++ b)) (sym same))

body_loop-parts :
    (api : WinHttp) (url : Text) (n last fuel round : ℕ) (body : Bytes)
    → round + n ≡ last
    → ((i : ℕ) → i < last → IsWaiting api url i)
    → IsEnd api url last
    → n < fuel
    → body_loop fuel api url round body ≡ ok (body ++ parts api url round n)
unfolding body_loop parts
body_loop-parts api url n last zero round body e waits ends enough = absurd (omega arith)
body_loop-parts api url zero last (suc fuel) round body e waits ends enough =
    let here : round ≡ last = omega (arith, e) in
    elim ends [
      | inl h ↦ rw (here, h, body_loop, append-nil body) refl
      | inr h ↦ rw (here, h, body_loop, append-nil body) refl
    ]
body_loop-parts api url (suc n) last (suc fuel) round body e waits ends enough =
    body_loop-part api url fuel round body (waits round (omega (arith, e)))
    ∙ (body_loop-parts api url n last fuel (suc round) (body ++ part api url round)
          (omega (arith, e)) waits ends (omega arith)
        ∙ ap ok (append_assoc body (part api url round) (parts api url (suc round) n)))

-- A server whose response has `rounds` rounds with data, and then ends.
pub record Responds (api : WinHttp) (url : Text) (rounds : ℕ) : Type 0 where
  pub waits : (i : ℕ) → i < rounds → IsWaiting api url i
  pub ends : IsEnd api url rounds

-- The calls of a GET before the response, in their order: each goes well.
pub record Reaches (api : WinHttp) (url : Text) : Type 0 where
  pub is_https : Bool
  pub cracked : api.crack_url url ≡ some is_https
  pub has_session : api.open_session ≡ true
  pub connected : api.connect url ≡ true
  pub requested : api.open_request url (codes "GET") is_https ≡ true
  pub sent : api.send_request url [] ≡ true
  pub received : api.receive_response url ≡ true

-- The first of them that fails, behind those that went well, and its diagnostic.
pub data Fails (api : WinHttp) (url : Text) : Text → Type 0 where
  not_cracked : api.crack_url url ≡ none → Fails api url (codes "Failed to parse URL")
  not_opened :
      {is_https : Bool}
      → api.crack_url url ≡ some is_https
      → api.open_session ≡ false
      → Fails api url (codes "WinHttpOpen failed")
  not_connected :
      {is_https : Bool}
      → api.crack_url url ≡ some is_https
      → api.open_session ≡ true
      → api.connect url ≡ false
      → Fails api url (codes "WinHttpConnect failed")
  not_requested :
      {is_https : Bool}
      → api.crack_url url ≡ some is_https
      → api.open_session ≡ true
      → api.connect url ≡ true
      → api.open_request url (codes "GET") is_https ≡ false
      → Fails api url (codes "WinHttpOpenRequest failed")
  not_sent :
      {is_https : Bool}
      → api.crack_url url ≡ some is_https
      → api.open_session ≡ true
      → api.connect url ≡ true
      → api.open_request url (codes "GET") is_https ≡ true
      → api.send_request url [] ≡ false
      → Fails api url (codes "WinHttpSendRequest failed")
  not_received :
      {is_https : Bool}
      → api.crack_url url ≡ some is_https
      → api.open_session ≡ true
      → api.connect url ≡ true
      → api.open_request url (codes "GET") is_https ≡ true
      → api.send_request url [] ≡ true
      → api.receive_response url ≡ false
      → Fails api url (codes "WinHttpReceiveResponse failed")

-- What the request comes to: the diagnostic of the first call that fails, with status 0, or, where they
-- all go well, the status and the body.
pub data Responded (api : WinHttp) (url : Text) (rounds : ℕ) : HttpResponse → Type 0 where
  failed_early :
      {reason : Text} → Fails api url reason → Responded api url rounds (no_response reason)
  answered :
      Reaches api url
      → Responded api url rounds
          (record { status_code = api.status_code url; body = parts api url 0 rounds })

-- Where the response ends after some number of rounds, and the loop has more than that, a GET ends.
-- Where one of the six calls before the response fails, the status is 0 and the body is the diagnostic
-- of the first that does; where all of them go well, the status is the server's and the body is what the
-- rounds read, all of it in their order.
pub http_get-Responded :
    (api : WinHttp) (url : Text) (rounds fuel : ℕ)
    → Responds api url rounds
    → rounds < fuel
    → Returns (Responded api url rounds) (http_get fuel api url)
unfolding http_get do_request
http_get-Responded api url rounds fuel server enough = elim (Option-cases (api.crack_url url)) [
  | inl a ↦ rw (a, http_get, do_request) (returns (failed_early (not_cracked a)))
  | inr (is_https, a) ↦
      rw (a, http_get, do_request)
        (if-Returns (not api.open_session) (λ b. returns (failed_early (not_opened a (is_false b))))
          λ b.
            if-Returns (not (api.connect url))
              (λ c. returns (failed_early (not_connected a (is_true b) (is_false c))))
              λ c.
                if-Returns (not (api.open_request url (codes "GET") is_https))
                  (λ d.
                    returns (failed_early (not_requested a (is_true b) (is_true c) (is_false d))))
                  λ d.
                    if-Returns (not (api.send_request url []))
                      (λ e. returns (
                        failed_early (not_sent a (is_true b) (is_true c) (is_true d) (is_false e))))
                      λ e.
                        if-Returns (not (api.receive_response url))
                          (λ f. returns (
                            failed_early (
                              not_received a (is_true b) (is_true c) (is_true d) (is_true e)
                                (is_false f))))
                          λ f.
                            let whole =
                              body_loop-parts api url rounds rounds fuel 0 [] (omega arith)
                                server.waits server.ends enough in
                            rw whole (
                              returns (
                                answered (record {
                                  is_https = is_https;
                                  cracked = a;
                                  has_session = is_true b;
                                  connected = is_true c;
                                  requested = is_true d;
                                  sent = is_true e;
                                  received = is_true f;
                                }))))
]
  where
    is_true : {b : Bool} → not b ≡ false → b ≡ true
    is_true e = ground arith

    is_false : {b : Bool} → not b ≡ true → b ≡ false
    is_false e = ground arith
