-- ===== src/Client/Menu/Address.antt =====
-- TopMenuExt::enterIpCallback (src/pe/Hacks/TopMenuSceneMod.cpp): the address that a player types.
pub mod Ports
use bf_multiplayer.Prelude.{
  ℕ, zero, suc, ◌+◌, ◌-◌, ◌*◌, ◌≡◌, Bool, true, false, ◌&&◌, ◌||◌, List, [], ◌∷◌, ◌++◌, Option,
  none, some, leb, ltb, ◌==◌, if◌then◌else◌, ℤ, pos, negsuc, length,
}

-- What is done with the text: a call of NetClient::connect, or the keyboard again.
pub data Answer : Type 0 where
  connect_to : List ℕ → ℕ → Answer
  ask_again : Answer

-- The default of `port`.
abbrev pub default_port : ℕ
default_port = 7089

-- The text before the first ':', and the text behind it, `none` when there is no ':'.
unfoldable pub split_host : List ℕ → List ℕ × Option (List ℕ)
split_host [] = ([], none)
split_host (c ∷ cs) =
    let rest = split_host cs in if c == b':' then ([], some cs) else (c ∷ rest.0, rest.1)

-- isspace of the C library.
abbrev pub is_space : ℕ → Bool
is_space c = c == b' ' || (leb 9 c && leb c 13)

abbrev pub is_digit : ℕ → Bool
is_digit c = leb b'0' c && leb c b'9'

unfoldable pub skip_spaces : List ℕ → List ℕ
skip_spaces [] = []
skip_spaces (c ∷ cs) = let rest = skip_spaces cs in if is_space c then rest else c ∷ cs

-- The digits of strtol from `value` on: the number and what is left.
unfoldable pub read_digits : ℕ → List ℕ → ℕ × List ℕ
read_digits value [] = (value, [])
read_digits value (c ∷ cs) =
    let rest = read_digits (10 * value + (c - b'0')) cs in
    if is_digit c then rest else (value, c ∷ cs)

unfoldable pub starts_with_digit : List ℕ → Bool
starts_with_digit [] = false
starts_with_digit (c ∷ cs) = is_digit c

-- An optional sign: whether it is a minus, and what is behind it.
unfoldable pub read_sign : List ℕ → Bool × List ℕ
read_sign [] = (false, [])
read_sign (c ∷ cs) =
    if c == b'-' then (true, cs) else (if c == b'+' then (false, cs) else (false, c ∷ cs))

abbrev pub negate : ℕ → ℤ
negate zero = pos zero
negate (suc n) = negsuc n

-- `strtol(text, &endptr, 10)`: `none` when endptr stays at the start, else the number and what is
-- left. A number that `long` cannot hold, which the C library cuts off at the bounds of `long`,
-- is none that a port can have in either form.
unfoldable pub strtol : List ℕ → Option (ℤ × List ℕ)
unfolding skip_spaces read_sign read_digits starts_with_digit
strtol text =
    let (minus, digits) = read_sign (skip_spaces text) in
    let (value, rest) = read_digits 0 digits in
    if starts_with_digit digits
    then some ((if minus then negate value else pos value), rest)
    else none

unfoldable pub is_empty_text : List ℕ → Bool
is_empty_text [] = true
is_empty_text (c ∷ cs) = false

-- The range of u16.
unfoldable pub port_of : ℤ → Option ℕ
port_of (pos n) = if leb n 65535 then some n else none
port_of (negsuc n) = none

-- The test of the port.
unfoldable pub read_port : List ℕ → Option ℕ
unfolding strtol is_empty_text port_of
read_port text = elim (strtol text) [
  | none ↦ none
  | some (n, rest) ↦ if is_empty_text rest then port_of n else none
]

-- enterIpCallback behind its first test. The text has at most 21 characters, as the keyboard makes
-- sure of. `copy` is the copy of a string into `ip`, an array of 16 bytes, by the string class of the
-- game, which is not here.
unfoldable pub enter_ip : (List ℕ → List ℕ) → List ℕ → Answer
unfolding split_host read_port is_empty_text
enter_ip copy text =
    let (host, behind) = split_host text in
    elim behind [
      | none ↦ connect_to (copy host) default_port
      | some port ↦
          if is_empty_text port
          then ask_again
          else elim (read_port port) [ none ↦ ask_again | some n ↦ connect_to (copy host) n ]
    ]
