-- ===== src/Esp/Pages.antt =====
-- The constants of sw/linux/fake_esp.py: what its web server answers, the names that it resolves, and
-- the scenarios that its option `--scenario` names.
use koti.Base.{ℕ, Option, none, some, Bool, ◌==◌, List, [], ◌∷◌, ◌++◌, if◌then◌else◌}
use koti.Base.Text.{Text, lit, text_eq}

abbrev pub headers : Text
headers =
    lit "HTTP/1.1 200 OK\r\n"
    ++ lit "Content-Type: text/html\r\n"
    ++ lit "Date: Thu, 14 Aug 2026 08:11:52 GMT\r\n"
    ++ lit "Content-Length: 0\r\n"
    ++ lit "Connection: close\r\n"
    ++ lit "Server: ECAcc (dcd/7D5A)\r\n"
    ++ lit "\r\n"

abbrev pub response : Text
response =
    lit "HTTP/1.1 200 OK\r\n"
    ++ lit "Content-Type: text/html\r\n"
    ++ lit "Date: Thu, 14 Aug 2026 08:11:52 GMT\r\n"
    ++ lit "Content-Length: 128\r\n"
    ++ lit "Connection: close\r\n"
    ++ lit "Server: ECAcc (dcd/7D5A)\r\n"
    ++ lit "\r\n"
    ++ lit "<!doctype html>\n<html>\n<head>\n<title>Example Domain</title>\n"
    ++ lit "</head>\n<body>\n<h1>Example Domain</h1>\n<p>koti fetched this.</p>\n"
    ++ lit "</body>\n</html>\n"

abbrev pub broken_dns : Text
broken_dns = lit "254.128.0.0"

abbrev pub gateway : Text
gateway = lit "172.20.10.1"

abbrev pub known : List (Text × Text)
known = (lit "example.com", lit "93.184.216.34") ∷ (lit "188.184.67.127", lit "188.184.67.127") ∷ []

-- `KNOWN.get(host)`.
unfoldable pub resolve : Text → List (Text × Text) → Option Text
resolve host [] = none
resolve host ((name, address) ∷ names) =
    if text_eq name host then some address else resolve host names

-- The scenarios that the program tests for; any other text is `plain`, as is the default "ok".
pub data Scenario : Type 0 where
  plain : Scenario
  good_dns : Scenario
  no_dhcp : Scenario
  refuse : Scenario
  empty : Scenario
  no_newline : Scenario
  no_join : Scenario
  not_associated : Scenario
  garble : Scenario
  flaky_link : Scenario
  request_damage : Scenario
  continuation : Scenario
  program_damage : Scenario
  program_damage_hard : Scenario
  wedge : Scenario

unfoldable pub index : Scenario → ℕ
index plain = 0
index good_dns = 1
index no_dhcp = 2
index refuse = 3
index empty = 4
index no_newline = 5
index no_join = 6
index not_associated = 7
index garble = 8
index flaky_link = 9
index request_damage = 10
index continuation = 11
index program_damage = 12
index program_damage_hard = 13
index wedge = 14

-- `scenario == name`.
unfoldable pub is_scenario : Scenario → Scenario → Bool
unfolding index
is_scenario s t = index s == index t
