-- ===== src/Xdr/Codec/Laws.antt =====
-- src/xdr.c: a function that codes its members one after the other loses nothing.
use nfsrods.Prelude.{ℕ, ◌≡◌, refl, List, [], ◌++◌, Option, length-append, arith}
use mathlib.Core.List.{append_assoc}
use nfsrods.Xdr.Codec.{
  Codec, Coded, Lawful, both_written, then_read, after_reading, both, struct, nothing,
}

-- A tag, and then what the tag says: `arm` reads on from it.
pub tagged :
    {T A U : Type 0} {tag_put : T → Option (List ℕ)} {tag_get : List ℕ → Option (T × List ℕ)}
    {put : A → Option (List ℕ)} {get : List ℕ → Option (A × List ℕ)} {t : T} {a : A}
    → Coded tag_put tag_get t
    → Coded put get a
    → (make : A → U) (u_put : U → Option (List ℕ)) (arm : T → List ℕ → Option (U × List ℕ))
    → u_put (make a) ≡ both_written (tag_put t) (put a)
    → ((s : List ℕ) → arm t s ≡ after_reading make (get s))
    → Coded u_put (λ s. then_read (tag_get s) arm) (make a)
tagged {tag_put = tag_put} {tag_get = tag_get} {get = get} {t = t} {a = a} ct ca make u_put arm wr
      rd =
    record {
      wire = ct.wire ++ ca.wire;
      written = rw (wr, ct.written, ca.written);
      aligned = omega (arith, length-append ct.wire ca.wire, ct.aligned, ca.aligned);
      read_back = λ rest.
          rw
            (
              append_assoc ct.wire ca.wire rest,
              ct.read_back (ca.wire ++ rest),
              rd (ca.wire ++ rest),
              ca.read_back rest,
            )
            refl;
    }

pub both-Lawful :
    {A B : Type 0} {c : Codec A} {d : Codec B} → Lawful c → Lawful d → Lawful (both c d)
unfolding both
both-Lawful {c = c} {d = d} hc hd (a, b) (fa, fb) =
    tagged (hc a fa) (hd b fb) (λ b. (a, b)) (both c d).put
      (λ a rest. after_reading (λ b. (a, b)) (d.get rest)) refl (λ s. refl)

pub struct-Lawful :
    {A S : Type 0} {c : Codec A} (members : S → A) (make : A → S)
    → ((v : S) → make (members v) ≡ v)
    → Lawful c
    → Lawful (struct members make c)
struct-Lawful {c = c} members make back h v fits =
    let m = h (members v) fits in
    record {
      wire = m.wire;
      written = m.written;
      aligned = m.aligned;
      read_back = λ rest. rw (m.read_back rest, back v);
    }

pub nothing-Lawful : Lawful nothing
nothing-Lawful v fits = record {
  wire = [];
  written = refl;
  aligned = refl;
  read_back = λ rest. refl;
}
