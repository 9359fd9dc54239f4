-- ===== src/Client/Menu/Address/Ports.antt =====
-- The ports that the address holds.
use bf_multiplayer.Prelude.{
  ℕ, zero, suc, ◌+◌, ◌-◌, ◌*◌, ◌/◌, ◌%◌, ◌<◌, ◌≡◌, ◌≢◌, refl, true, false, List, [], ◌∷◌, ◌++◌,
  none, some, leb, ltb, if◌then◌else◌, length, arith, All, Bool-cases, inl, inr,
}
use bf_multiplayer.Client.Menu.Address.{
  connect_to, ask_again, split_host, is_digit, skip_spaces, read_digits, starts_with_digit,
  read_sign, strtol, is_empty_text, port_of, read_port, enter_ip,
}

-- The copy into `ip` leaves a string that fits as it is.
pub record KeepsShort (copy : List ℕ → List ℕ) : Type 0 where
  pub kept : (s : List ℕ) → length s < 16 → copy s ≡ s

-- A number in decimal digits, as "%u" prints it; `fuel` is more than it has digits.
unfoldable pub digits_on : ℕ → ℕ → List ℕ → List ℕ
digits_on zero n rest = rest
digits_on (suc fuel) n rest =
    let more = digits_on fuel (n / 10) ((48 + n % 10) ∷ rest) in
    if ltb n 10 then (48 + n) ∷ rest else more

unfoldable pub print_port : ℕ → List ℕ
unfolding digits_on
print_port n = digits_on 5 n []

abbrev pub AreDigits : List ℕ → Type 0
AreDigits = All (λ (c : ℕ). is_digit c ≡ true)

-- The value of digits behind a value.
unfoldable pub value_of : ℕ → List ℕ → ℕ
value_of v [] = v
value_of v (c ∷ cs) = value_of (10 * v + (c - 48)) cs

read_digits_all : (v : ℕ) (ds : List ℕ) → AreDigits ds → read_digits v ds ≡ (value_of v ds, [])
unfolding read_digits value_of
read_digits_all v [] a = refl
read_digits_all v (c ∷ cs) a = rw (a.0) (read_digits_all (10 * v + (c - 48)) cs a.1)

digits_on-AreDigits :
    (fuel n : ℕ) (rest : List ℕ) → AreDigits rest → AreDigits (digits_on fuel n rest)
unfolding digits_on
digits_on-AreDigits zero n rest a = a
digits_on-AreDigits (suc fuel) n rest a = elim (Bool-cases (ltb n 10)) [
  | inl one ↦ rw one (ground arith, a)
  | inr more ↦ rw more (digits_on-AreDigits fuel (n / 10) ((48 + n % 10) ∷ rest) (ground arith, a))
]

print_port_value : (n : ℕ) → n < 65536 → value_of 0 (print_port n) ≡ n
unfolding value_of print_port
print_port_value n h = ground arith

print_port-AreDigits : (n : ℕ) → AreDigits (print_port n)
unfolding print_port
print_port-AreDigits n = digits_on-AreDigits 5 n [] tt

print_port_starts : (n : ℕ) → starts_with_digit (print_port n) ≡ true
unfolding starts_with_digit print_port
print_port_starts n = ground arith

skip_spaces-digits :
    (ds : List ℕ) → starts_with_digit ds ≡ true → read_sign (skip_spaces ds) ≡ (false, ds)
unfolding starts_with_digit skip_spaces read_sign
skip_spaces-digits [] h = cc
skip_spaces-digits (c ∷ cs) h = ground arith

read_port-digits :
    (ds : List ℕ)
    → starts_with_digit ds ≡ true
    → AreDigits ds
    → read_port ds ≡ (if leb (value_of 0 ds) 65535 then some (value_of 0 ds) else none)
unfolding read_port strtol port_of is_empty_text
read_port-digits ds h a = ground (arith, skip_spaces-digits ds h, read_digits_all 0 ds a)

-- A rest that is not empty is behind digits wherever the text has a byte that is none.
read_digits_rest :
    (v : ℕ) (ds : List ℕ) (c : ℕ) (cs : List ℕ)
    → AreDigits ds
    → is_digit c ≡ false
    → read_digits v (ds ++ c ∷ cs) ≡ (value_of v ds, c ∷ cs)
unfolding read_digits value_of
read_digits_rest v [] c cs a h = rw h refl
read_digits_rest v (d ∷ ds) c cs a h = rw (a.0) (read_digits_rest (10 * v + (d - 48)) ds c cs a.1 h)

starts_with_digit-append :
    (ds cs : List ℕ) → starts_with_digit ds ≡ true → starts_with_digit (ds ++ cs) ≡ true
unfolding starts_with_digit
starts_with_digit-append [] cs h = cc
starts_with_digit-append (d ∷ ds) cs h = h

read_port-rest :
    (ds : List ℕ) (c : ℕ) (cs : List ℕ)
    → starts_with_digit ds ≡ true
    → AreDigits ds
    → is_digit c ≡ false
    → read_port (ds ++ c ∷ cs) ≡ none
unfolding read_port strtol is_empty_text
read_port-rest ds c cs h a n = ground (
  arith,
  skip_spaces-digits (ds ++ c ∷ cs) (starts_with_digit-append ds (c ∷ cs) h),
  read_digits_rest 0 ds c cs a n,
  starts_with_digit-append ds (c ∷ cs) h,
)

is_empty_text-digits : (ds : List ℕ) → starts_with_digit ds ≡ true → is_empty_text ds ≡ false
unfolding starts_with_digit is_empty_text
is_empty_text-digits [] h = cc
is_empty_text-digits (d ∷ ds) h = refl

-- No byte of the text is a ':'.
abbrev pub HasNoColon : List ℕ → Type 0
HasNoColon = All (λ (c : ℕ). c ≢ b':')

split_host-none : (host : List ℕ) → HasNoColon host → split_host host ≡ (host, none)
unfolding split_host
split_host-none [] a = refl
split_host-none (c ∷ cs) a = ground (arith, a.0, split_host-none cs a.1)

split_host-some :
    (host rest : List ℕ) → HasNoColon host → split_host (host ++ b':' ∷ rest) ≡ (host, some rest)
unfolding split_host
split_host-some [] rest a = refl
split_host-some (c ∷ cs) rest a = ground (arith, a.0, split_host-some cs rest a.1)

-- What a player types as an address, for a host of fewer than 16 bytes without a ':' whose copy is
-- kept: alone it gets the port 7089; with a ':' and nothing behind it, with a number above 65535, or
-- with digits before a byte that is none, the keyboard comes again; and a number that is not empty
-- and at most 65535 is the port.
pub enter_ip_lem :
    (copy : List ℕ → List ℕ) (host ds : List ℕ) (c : ℕ) (cs : List ℕ)
    → KeepsShort copy
    → length host < 16
    → HasNoColon host
    → starts_with_digit ds ≡ true
    → AreDigits ds
    → is_digit c ≡ false
    → (enter_ip copy host ≡ connect_to host 7089)
      × (enter_ip copy (host ++ b':' ∷ []) ≡ ask_again)
      × (enter_ip copy (host ++ b':' ∷ ds)
          ≡ (if leb (value_of 0 ds) 65535 then connect_to host (value_of 0 ds) else ask_again))
      × (enter_ip copy (host ++ b':' ∷ (ds ++ c ∷ cs)) ≡ ask_again)
unfolding enter_ip
enter_ip_lem copy host ds c cs k l n s a d = (
  ground (arith, split_host-none host n, k.kept host),
  ground (arith, split_host-some host [] n),
  ground (
    arith,
    split_host-some host ds n,
    is_empty_text-digits ds s,
    read_port-digits ds s a,
    k.kept host,
  ),
  ground (
    arith,
    split_host-some host (ds ++ c ∷ cs) n,
    is_empty_text-digits (ds ++ c ∷ cs) (starts_with_digit-append ds (c ∷ cs) s),
    read_port-rest ds c cs s a d,
  ),
)

-- A server's address as the menu prints it, with a ':' and the port in decimal digits, is read back
-- as the same host and port, for a host of fewer than 16 bytes without a ':' and a port of 16 bits.
pub enter_ip-print_port :
    (copy : List ℕ → List ℕ) (host : List ℕ) (port : ℕ)
    → KeepsShort copy
    → length host < 16
    → HasNoColon host
    → port < 65536
    → enter_ip copy (host ++ b':' ∷ print_port port) ≡ connect_to host port
unfolding enter_ip
enter_ip-print_port copy host port k l n h = ground (
  arith,
  split_host-some host (print_port port) n,
  is_empty_text-digits (print_port port) (print_port_starts port),
  read_port-digits (print_port port) (print_port_starts port) (print_port-AreDigits port),
  print_port_value port h,
  k.kept host,
)
