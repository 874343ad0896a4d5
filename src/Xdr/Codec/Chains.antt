-- ===== src/Xdr/Codec/Chains.antt =====
-- src/xdr.c: the functions that call `xdr_pointer` on themselves, for the last member of a node. A
-- chain of nodes is a list; `depth` is how many nodes the C stack has room for.
use nfsrods.Prelude.{ℕ, zero, suc, ◌<◌, List, [], ◌∷◌, Option, none, some, arith}
use nfsrods.Xdr.Codec.{Codec, Lawful, after_reading, both}
use nfsrods.Xdr.Codec.Laws.{both-Lawful}
use nfsrods.Xdr.Codec.Library.{Xdr}

module _ {A : Type 0} where
  abbrev pub first_node : List A → Option (A × List A)
  first_node [] = none
  first_node (a ∷ rest) = some (a, rest)

  abbrev pub nodes : Option (A × List A) → List A
  nodes none = []
  nodes (some node) = node.0 ∷ node.1

module _ (x : Xdr) where
  -- `xdr_pointer` on a pointer to the first node.
  abbrev pub chained : {A : Type 0} → Codec (A × List A) → Codec (List A)
  chained c = record {
    put = λ xs. x.put_pointer c.put (first_node xs);
    get = λ s. after_reading nodes (x.get_pointer c.get s);
    Fits = λ xs. elim xs [ [] ↦ Unit {0} | a ∷ rest ↦ c.Fits (a, rest) ];
  }

  pub chained-Lawful : {A : Type 0} {c : Codec (A × List A)} → Lawful c → Lawful (chained c)
  chained-Lawful {c = c} h [] fits =
      let m = x.null_coded c.put c.get in
      record {
        wire = m.wire;
        written = m.written;
        aligned = m.aligned;
        read_back = λ rest. rw (m.read_back rest);
      }
  chained-Lawful {c = c} h (a ∷ xs) fits =
      let m = x.pointed_coded c.put c.get (a, xs) (h (a, xs) fits) in
      record {
        wire = m.wire;
        written = m.written;
        aligned = m.aligned;
        read_back = λ rest. rw (m.read_back rest);
      }

  -- A node, and the nodes behind it.
  abbrev pub chain : {A : Type 0} → ℕ → Codec A → Codec (A × List A)
  chain zero c = record { put = λ p. none; get = λ s. none; Fits = λ p. 1 < 0 }
  chain (suc depth) c = both c (chained (chain depth c))

  pub chain-Lawful : {A : Type 0} (depth : ℕ) {c : Codec A} → Lawful c → Lawful (chain depth c)
  chain-Lawful zero h p fits = absurd (omega arith)
  chain-Lawful (suc depth) h p fits = both-Lawful h (chained-Lawful (chain-Lawful depth h)) p fits
