-- ===== src/Exports/Hosts.antt =====
-- src/Config/exports.y: the host of an export that an address belongs to, and prefixes.
use Prim.Native.Nat.{bit_and}
use nfsrods.Prelude.{
  ℕ, ◌==◌, ◌≡◌, ◌≢◌, refl, ◌∙◌, ap, true, inl, inr, List, [], ◌∷◌, ◌++◌, some, arith, Bool-cases,
}
use nfsrods.Exports.{EHost}
use nfsrods.Exports.Lookup.{find_host, starts_with}

-- The address lies in the network of none of the hosts.
abbrev pub Outside : ℕ → List EHost → Type 0
Outside remote [] = Unit {0}
Outside remote (h ∷ hosts) = (bit_and remote h.mask ≢ h.addr) × Outside remote hosts

-- The first host of a list whose network the address lies in: its masked address is the host's, and
-- that of no host before it.
pub record FirstHost (remote : ℕ) (hosts : List EHost) (h : EHost) : Type 0 where
  pub before : List EHost
  pub after : List EHost
  pub split : hosts ≡ before ++ (h ∷ after)
  pub in_network : bit_and remote h.mask ≡ h.addr
  pub others : Outside remote before

pub starts_with→◌++◌ :
    (prefix s : List ℕ) → starts_with prefix s ≡ true → (rest : List ℕ) × (s ≡ prefix ++ rest)
starts_with→◌++◌ [] s h = (s, refl)
starts_with→◌++◌ (c ∷ prefix) [] h = absurd (ground (arith, h))
starts_with→◌++◌ (c ∷ prefix) (d ∷ s) h =
    let (rest, e) = starts_with→◌++◌ prefix s (ground (arith, h)) in
    let same : d ≡ c = ground (arith, h) in (rest, cc)

pub starts_with_append : (prefix rest : List ℕ) → starts_with prefix (prefix ++ rest) ≡ true
starts_with_append [] rest = refl
starts_with_append (c ∷ prefix) rest = ground (arith, starts_with_append prefix rest)

pub find_host-FirstHost :
    (remote : ℕ) (hosts : List EHost) (h : EHost)
    → find_host remote hosts ≡ some h
    → FirstHost remote hosts h
unfolding find_host
find_host-FirstHost remote [] h e = absurd (ground (arith, e))
find_host-FirstHost remote (g ∷ hosts) h e = elim (Bool-cases (bit_and remote g.mask == g.addr)) [
  | inl hit ↦
      let same : g ≡ h = ground (arith, e, hit) in
      record {
        before = [];
        after = hosts;
        split = rw same refl;
        in_network = ground (arith, hit, same);
        others = tt;
      }
  | inr miss ↦
      let first = find_host-FirstHost remote hosts h (ground (arith, e, miss)) in
      record {
        before = g ∷ first.before;
        after = first.after;
        split = ap (λ r. g ∷ r) first.split;
        in_network = first.in_network;
        others = (λ same. ground (arith, miss, same), first.others);
      }
]

find_host_first :
    (remote : ℕ) (before after : List EHost) (h : EHost)
    → bit_and remote h.mask ≡ h.addr
    → Outside remote before
    → find_host remote (before ++ (h ∷ after)) ≡ some h
unfolding find_host
find_host_first remote [] after h here others = ground (arith, here)
find_host_first remote (g ∷ before) after h here (out, others) =
    let rest = find_host_first remote before after h here others in ground (arith, out, rest)

pub FirstHost-find_host :
    (remote : ℕ) (hosts : List EHost) (h : EHost)
    → FirstHost remote hosts h
    → find_host remote hosts ≡ some h
FirstHost-find_host remote hosts h first =
    ap (find_host remote) first.split
    ∙ find_host_first remote first.before first.after h first.in_network first.others
