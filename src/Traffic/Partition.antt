-- ===== src/Traffic/Partition.antt =====
-- `partition_key`: which bucket a request falls in. Lower-casing is that of the standard library's
-- Unicode tables, and an address is rendered by the standard library: both are parameters here.
use mathlib.Core.Option
use rust_api_modular_monolit.Base.{
  ℕ, ◌+◌, ◌*◌, ◌/◌, ◌%◌, ◌^◌, ◌<◌, ◌≡◌, refl, String, Bool, false, not, List, [], ◌∷◌, Option, none,
  some, arith, nat_eq, if◌then◌else◌, filter_some,
}
use rust_api_modular_monolit.Base.Text.{is_empty, is_blank, trim, format, is_empty-trim}

pub data IpAddr : Type 0 where
  v4 : ℕ → IpAddr
  v6 : ℕ → IpAddr

-- `Ipv6Addr::to_ipv4_mapped`: `::ffff:a.b.c.d` is `a.b.c.d`.
abbrev pub to_ipv4_mapped : ℕ → Option ℕ
to_ipv4_mapped bits = if nat_eq (bits / 2 ^ 32) 0xffff then some (bits % 2 ^ 32) else none

-- `RequestClaims`: the first value of a claim.
abbrev pub RequestClaims : Type 0
RequestClaims = String → Option String

-- The claims that are tried, in order, with the prefix of each.
abbrev pub claim_prefixes : List (String × String)
claim_prefixes = ("client_id", "client") ∷ ("tenant", "tenant") ∷ ("sub", "sub") ∷ []

-- `.map(str::trim).filter(|v| !v.is_empty())`
abbrev pub non_blank : Option String → Option String
non_blank v = filter_some (λ s. not (is_empty s)) (Option.map trim v)

module _ (to_lowercase : String → String) (v4_to_string v6_to_string : ℕ → String) where
  pub normalize_address : IpAddr → String
  normalize_address (v4 bits) = v4_to_string bits
  normalize_address (v6 bits) = elim (to_ipv4_mapped bits) [
    | some mapped ↦ v4_to_string mapped
    | none ↦ v6_to_string bits
  ]

  claim_key : RequestClaims → List (String × String) → Option String
  claim_key claim [] = none
  claim_key claim ((name, prefix) ∷ rest) = elim (non_blank (claim name)) [
    | some value ↦ some (format (prefix ∷ ":" ∷ to_lowercase value ∷ []))
    | none ↦ claim_key claim rest
  ]

  address_key : Option IpAddr → String
  address_key none = "ip:unknown"
  address_key (some address) = format ("ip:" ∷ normalize_address address ∷ [])

  pub partition_key : Option RequestClaims → Option IpAddr → String
  partition_key none address = address_key address
  partition_key (some claim) address = elim (claim_key claim claim_prefixes) [
    | some key ↦ key
    | none ↦ address_key address
  ]

  -- The claim is there and holds more than white space.
  abbrev pub usable : Option String → Bool
  usable none = false
  usable (some v) = not (is_blank v)

  -- The key that a claim gives.
  abbrev pub claim_bucket : String → Option String → String
  claim_bucket prefix none = ""
  claim_bucket prefix (some v) = format (prefix ∷ ":" ∷ to_lowercase (trim v) ∷ [])

  claim_key-cons :
      (claim : RequestClaims) (name prefix : String) (rest : List (String × String))
      (v : Option String)
      → claim name ≡ v
      → claim_key claim ((name, prefix) ∷ rest)
        ≡ (if usable v then some (claim_bucket prefix v) else claim_key claim rest)
  unfolding claim_key
  claim_key-cons claim name prefix rest none e = rw (e, claim_key)
  claim_key-cons claim name prefix rest (some v) e =
      rw (e, claim_key) (ground (arith, is_empty-trim v))

  claim_key-nil : (claim : RequestClaims) → claim_key claim [] ≡ none
  unfolding claim_key
  claim_key-nil claim = refl

  -- The first of `client_id`, `tenant` and `sub` that is present and not blank gives the key, under
  -- its own prefix, trimmed and in lower case, whatever stands behind it; with none of them the
  -- caller's address gives it, as if there were no claims.
  partition_key-precedence :
      (claim : RequestClaims) (address : Option IpAddr)
      → partition_key (some claim) address ≡ (
          if usable (claim "client_id")
          then claim_bucket "client" (claim "client_id")
          else if usable (claim "tenant")
          then claim_bucket "tenant" (claim "tenant")
          else if usable (claim "sub")
          then claim_bucket "sub" (claim "sub")
          else partition_key none address)
  unfolding partition_key
  partition_key-precedence claim address = ground (
    arith,
    claim_key-cons claim "client_id" "client" (("tenant", "tenant") ∷ ("sub", "sub") ∷ [])
        (claim "client_id") refl,
    claim_key-cons claim "tenant" "tenant" (("sub", "sub") ∷ []) (claim "tenant") refl,
    claim_key-cons claim "sub" "sub" [] (claim "sub") refl,
    claim_key-nil claim,
  )

  normalize_address-mapped :
      (bits : ℕ)
      → bits < 2 ^ 32
      → normalize_address (v6 (0xffff * 2 ^ 32 + bits)) ≡ normalize_address (v4 bits)
  unfolding normalize_address
  normalize_address-mapped bits h = ground arith

  -- A caller over IPv4 has one bucket, whether the socket reports the address itself or its
  -- IPv4-mapped IPv6 form.
  partition_key-mapped :
      (claims : Option RequestClaims) (bits : ℕ)
      → bits < 2 ^ 32
      → partition_key claims (some (v6 (0xffff * 2 ^ 32 + bits)))
        ≡ partition_key claims (some (v4 bits))
  unfolding partition_key address_key
  partition_key-mapped none bits h = rw (normalize_address-mapped bits h)
  partition_key-mapped (some claim) bits h = ground (arith, normalize_address-mapped bits h)
