-- ===== src/Relay/Sanitize.antt =====
-- The header sanitizer of desktop/internal/relay/dialer.go: the request head, and the connection that
-- holds bytes back until the head is complete.
pub mod Lines
pub mod Holding
use toppa.Base.{
  ℕ, zero, suc, ◌+◌, ◌*◌, ◌-◌, Bool, true, false, ◌&&◌, ◌||◌, not, Option, none, some, List, [],
  ◌∷◌, ◌++◌,
}
use toppa.Base.Tests.{ltb, leb, ◌==◌, if◌then◌else◌}
use toppa.Base.Lists.{length, take, drop, is_empty}
use toppa.Base.Bytes.{Bytes, codes, Writer, write, IoError}

pub record SanitizeConfig : Type 0 where
  pub enabled : Bool
  pub user_agent : Bytes
  pub strip_forwarded : Bool

abbrev pub default_android_ua : Bytes
default_android_ua =
    codes
      "Mozilla/5.0 (Linux; Android 14) AppleWebKit/537.36 (KHTML, like Gecko) Chrome/124.0.0.0 Mobile Safari/537.36"

abbrev pub http_methods : List Bytes
http_methods =
    codes "GET "
    ∷ codes "POST "
    ∷ codes "PUT "
    ∷ codes "DELETE "
    ∷ codes "HEAD "
    ∷ codes "OPTIONS "
    ∷ codes "PATCH "
    ∷ []

abbrev pub crlf : Bytes
crlf = 13 ∷ 10 ∷ []

-- `strings.HasPrefix`, with the prefix first.
unfoldable pub has_prefix : Bytes → Bytes → Bool
has_prefix [] s = true
has_prefix (p ∷ ps) [] = false
has_prefix (p ∷ ps) (x ∷ s) = p == x && has_prefix ps s

unfoldable pub any_prefix : List Bytes → Bytes → Bool
unfolding has_prefix
any_prefix [] s = false
any_prefix (p ∷ ps) s = has_prefix p s || any_prefix ps s

-- `strings.ToLower` on ASCII.
unfoldable pub to_lower : Bytes → Bytes
to_lower [] = []
to_lower (x ∷ s) = (if leb 65 x && leb x 90 then x + 32 else x) ∷ to_lower s

unfoldable pub cons_first : ℕ → List Bytes → List Bytes
cons_first x [] = (x ∷ []) ∷ []
cons_first x (l ∷ ls) = (x ∷ l) ∷ ls

-- `strings.Split(s, "\r\n")`
unfoldable pub split_lines : Bytes → List Bytes
unfolding cons_first
split_lines [] = [] ∷ []
split_lines (x ∷ []) = (x ∷ []) ∷ []
split_lines (x ∷ y ∷ s) = elim (x == 13 && y == 10) [
  | true ↦ [] ∷ split_lines s
  | false ↦ cons_first x (split_lines (y ∷ s))
]

unfoldable pub user_agent_of : SanitizeConfig → Bytes
user_agent_of c = if is_empty c.user_agent then default_android_ua else c.user_agent

abbrev pub forwarded_headers : List Bytes
forwarded_headers =
    codes "forwarded:" ∷ codes "x-forwarded-for:" ∷ codes "x-forwarded-host:" ∷ codes "via:" ∷ []

-- What a line becomes, and whether that changes it.
unfoldable pub rewrite_line : SanitizeConfig → Bytes → Bytes × Bool
unfolding any_prefix user_agent_of
rewrite_line cfg line =
    let lower = to_lower line in
    if has_prefix (codes "user-agent:") lower
    then (codes "User-Agent: " ++ user_agent_of cfg ++ crlf, true)
    else if cfg.strip_forwarded && any_prefix forwarded_headers lower
    then ([], true)
    else (line ++ crlf, false)

unfoldable pub rewrite_lines : SanitizeConfig → List Bytes → Bytes × Bool
unfolding rewrite_line
rewrite_lines cfg [] = ([], false)
rewrite_lines cfg (l ∷ ls) = (
  (rewrite_line cfg l).0 ++ (rewrite_lines cfg ls).0,
  (rewrite_line cfg l).1 || (rewrite_lines cfg ls).1,
)

unfoldable pub sanitize_request_head : Bytes → SanitizeConfig → Bytes × Bool
unfolding rewrite_lines split_lines any_prefix
sanitize_request_head head cfg =
    if any_prefix http_methods head then rewrite_lines cfg (split_lines head) else (head, false)

pub record SanitizedConn : Type 0 where
  pub conn : Writer
  pub cfg : SanitizeConfig
  pub buf : Bytes
  pub done : Bool

abbrev pub max_head_hold : ℕ
max_head_hold = 16 * 1024

unfoldable pub further : Option ℕ → Option ℕ
further none = none
further (some n) = some (n + 1)

-- `bytes.Index` of a blank line's two line ends
unfoldable pub head_end : Bytes → Option ℕ
unfolding has_prefix further
head_end [] = none
head_end (x ∷ s) = if has_prefix (crlf ++ crlf) (x ∷ s) then some 0 else further (head_end s)

-- `Write` of the connection below: the bytes it took, and its error.
unfoldable pub conn_write : Writer → Bytes → Writer × ℕ × Option IoError
unfolding write
conn_write w b = ((write w b).0, if leb (length b) w.room then length b else w.room, (write w b).1)

unfoldable pub after_rest :
    SanitizedConn → Bytes → Writer × ℕ × Option IoError → SanitizedConn × ℕ × Option IoError
after_rest c b (w, _, e) = (record c { conn = w }, length b, e)

unfoldable pub after_head :
    SanitizedConn → Bytes → Bytes → Writer × ℕ × Option IoError → SanitizedConn × ℕ × Option IoError
unfolding after_rest conn_write
after_head c b rest (w, _, some e) = (record c { conn = w }, 0, some e)
after_head c b rest (w, _, none) =
    if is_empty rest
    then (record c { conn = w; done = true }, length b, none)
    else after_rest (record c { done = true }) b (conn_write w rest)

unfoldable pub passed :
    SanitizedConn → Writer × ℕ × Option IoError → SanitizedConn × ℕ × Option IoError
passed c (w, n, e) = (record c { conn = w; done = true }, n, e)

-- `Write` once `data` is all that is held and `found` tells where its head ends.
unfoldable pub flush : SanitizedConn → Bytes → Bytes → Option ℕ → SanitizedConn × ℕ × Option IoError
unfolding after_head passed sanitize_request_head
flush c b held none =
    if ltb (length held) max_head_hold
    then (c, length b, none)
    else passed c (conn_write c.conn held)
flush c b held (some n) =
    after_head c b (drop (n + 4) held)
      (conn_write c.conn (sanitize_request_head (take (n + 4) held) c.cfg).0)

-- `SanitizedConn.Write`
unfoldable pub sanitized_write : SanitizedConn → Bytes → SanitizedConn × ℕ × Option IoError
unfolding flush head_end
sanitized_write c b =
    let held = c.buf ++ b in
    if c.done
    then passed c (conn_write c.conn b)
    else flush (record c { buf = held }) b held (head_end held)
