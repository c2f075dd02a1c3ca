-- ===== src/Tests/Machine.antt =====
-- A machine for the tests: an elevated process, two certificates in the registry, a server that
-- answers in two rounds, and no event log.
use sdk_windows.Prelude.{
  ℕ, ◌+◌, zero, suc, ◌<◌, ◌≡◌, refl, arith, true, [], ◌∷◌, Bytes, Text, length, replicate, ok,
  Option, none, some, inr,
}
use sdk_windows.Wire.{read_u16}
use sdk_windows.Windows.{Digest, Base64Api, Registry, WinHttp, Windows}
use sdk_windows.Windows.Http.Responses.{IsWaiting, Responds}
use sdk_windows.Tpm.Nv.Safety.{BoundedReads}
use sdk_windows.Client.Gather.Total.{Ends}
use sdk_windows.Tpm.{Tbs, replied}
use sdk_windows.Tpm.Contexts.{Counts}
use sdk_windows.Tests.Devices.{toy_response, toy_tbs}
use sdk_windows.Tests.Keys.{toy_api}

abbrev pub toy_digest : ℕ → Digest
toy_digest size = record {
  open_status = 0;
  length_status = 0;
  hash_length = size;
  create_status = 0;
  update_status = λ contents. 0;
  finish_status = λ contents. 0;
  finished = λ contents. replicate size 0xAB;
}

-- A text that is its own encoding.
abbrev pub toy_base64 : Base64Api
toy_base64 = record {
  encoded_length = λ contents. length contents;
  encoded = λ contents size. (contents, size);
  decoded_length = λ text. length text;
  decoded = λ text size. (text, size);
}

abbrev pub toy_certificate : Bytes
toy_certificate = 0x30 ∷ 0x82 ∷ 0 ∷ 61 ∷ replicate 61 7

abbrev toy_subkey : ℕ → Option ℕ
toy_subkey zero = some 0
toy_subkey (suc zero) = some 1
toy_subkey (suc (suc i)) = none

-- A header of two bytes ahead of the certificate.
abbrev pub toy_registry : Registry
toy_registry = record {
  Name = ℕ;
  opens = true;
  info = some 2;
  enum_key = toy_subkey;
  opens_subkey = λ name. true;
  blob_size = λ name. some (3, 67);
  blob = λ name size. some (1 ∷ 2 ∷ toy_certificate, 67);
}

abbrev toy_rounds : ℕ → Option ℕ
toy_rounds zero = some 3
toy_rounds (suc zero) = some 2
toy_rounds (suc (suc i)) = some 0

abbrev pub toy_http : WinHttp
toy_http = record {
  crack_url = λ url. some true;
  open_session = true;
  connect = λ url. true;
  open_request = λ url verb is_https. true;
  send_request = λ url contents. true;
  receive_response = λ url. true;
  status_code = λ url. 200;
  data_available = λ url round. toy_rounds round;
  read_data = λ url round available. (replicate available round, available);
}

abbrev pub toy_windows : Windows
toy_windows = record {
  sha256 = toy_digest 32;
  sha1 = toy_digest 20;
  base64 = toy_base64;
  ncrypt = record {
    open_status = 0;
    size_of_property = λ property. (0, 3);
    read_property = λ property size. (0, (1 ∷ 2 ∷ 3 ∷ [], 3));
  };
  ek_store = toy_registry;
  intermediate_store = toy_registry;
  http = toy_http;
  logs = record { log_size = (0, 0); read_log = λ size. (0, ([], 0)) };
  certs = toy_api;
  constraints = record { basic_constraints = λ ctx. none };
  token_opens = true;
  elevation = some 1;
  allocates = λ size. true;
}

toy_waits : (url : Text) (i : ℕ) → i < 2 → IsWaiting toy_http url i
toy_waits url zero h = (3, refl, omega arith)
toy_waits url (suc zero) h = (2, refl, omega arith)
toy_waits url (suc (suc i)) h = absurd (omega arith)

pub toy_http-Responds : (url : Text) → Responds toy_http url 2
toy_http-Responds url = record { waits = toy_waits url; ends = inr refl }

pub toy_windows-Ends : Ends toy_windows 3
toy_windows-Ends = record {
  subkeys = 2;
  store_ends = refl;
  few_subkeys = omega arith;
  response_rounds = λ url. 2;
  responds = toy_http-Responds;
  few_rounds = λ url. omega arith;
}

zero_of : (n : ℕ) → ok 0 ≡ ok n → 0 ≡ n
zero_of n e = cc

-- Its responses state no data.
pub toy_tbs-BoundedReads : BoundedReads toy_tbs
unfolding read_u16
toy_tbs-BoundedReads = record {
  bounded =
      λ index want offset small d n e. let none_read = zero_of n e in omega (arith, none_read);
}

-- A TPM that answers in the same way, with a count of the contexts that were made and closed.
abbrev pub ledger_tbs : Tbs
ledger_tbs = record {
  Device = ℕ × ℕ;
  submit = λ d cmd. (replied toy_response, d);
  create_context = λ d. (0, (d.0 + 1, d.1));
  close_context = λ d. (d.0, d.1 + 1);
}

abbrev pub ledger_counts : Counts ledger_tbs
ledger_counts = record {
  made = λ d. d.0;
  closed = λ d. d.1;
  submit_made = λ d cmd. refl;
  submit_closed = λ d cmd. refl;
  create_made = λ d. refl;
  create_closed = λ d. refl;
  close_made = λ d. refl;
  close_closed = λ d. refl;
}

pub ledger_tbs-BoundedReads : BoundedReads ledger_tbs
unfolding read_u16
ledger_tbs-BoundedReads = record {
  bounded =
      λ index want offset small d n e. let none_read = zero_of n e in omega (arith, none_read);
}
