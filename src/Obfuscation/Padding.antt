-- ===== src/Obfuscation/Padding.antt =====
-- desktop/internal/obfuscation/obfuscation.go: the profiles, and the loop that sends the padding.
use toppa.Base.{ℕ, ◌*◌, ◌%◌, Bool, Option, none, some, List, [], ◌∷◌}
use toppa.Base.Tests.{◌==◌, if◌then◌else◌}
use toppa.Base.Bytes.{Bytes, codes}
use toppa.Base.Texts.{same_text}

-- The interval is in nanoseconds.
pub record Settings : Type 0 where
  pub padding_interval : ℕ
  pub padding_max_bytes : ℕ

abbrev pub millisecond : ℕ
millisecond = 1000000

unfoldable pub settings_for : Bytes → Settings
unfolding same_text
settings_for profile =
    if same_text profile (codes "light")
    then record { padding_interval = 3000 * millisecond; padding_max_bytes = 256 }
    else if same_text profile (codes "paranoid")
    then record { padding_interval = 750 * millisecond; padding_max_bytes = 2048 }
    else record { padding_interval = 0; padding_max_bytes = 0 }

-- `randomPadding`: `size_byte` and `random` are what the two calls of `rand.Read` give, none where they fail; the
-- second gives as many bytes as it is asked for.
unfoldable pub random_padding : ℕ → Option ℕ → (ℕ → Option Bytes) → Option Bytes
random_padding most none random = none
random_padding most (some size_byte) random =
    if most == 0 then none else if size_byte % most == 0 then none else random (size_byte % most)

-- One turn of the injector: it is stopped, or its ticker fires and the padding is drawn and sent.
pub record Tick : Type 0 where
  pub stopped : Bool
  pub size_byte : Option ℕ
  pub random : ℕ → Option Bytes
  pub sent : Bool

-- The goroutine of `Start`, with the payloads that it hands to `PingPayload`, nil as none.
unfoldable pub inject_loop : ℕ → List Tick → List (Option Bytes)
unfolding random_padding
inject_loop most [] = []
inject_loop most (t ∷ ts) =
    let later = inject_loop most ts in
    if t.stopped
    then []
    else random_padding most t.size_byte t.random ∷ (if t.sent then later else [])

-- `Start`
unfoldable pub start : Settings → List Tick → List (Option Bytes)
unfolding inject_loop
start s ts = if s.padding_interval == 0 then [] else inject_loop s.padding_max_bytes ts
