-- ===== src/Xdr/Mounts.antt =====
-- src/xdr.c: the mount protocol.
use nfsrods.Prelude.{ℕ, refl, List, arith}
use nfsrods.Xdr.Codec.{Codec, Lawful, both, struct, nothing}
use nfsrods.Xdr.Codec.Laws.{both-Lawful, struct-Lawful, nothing-Lawful}
use nfsrods.Xdr.Codec.Library.{Xdr}
use nfsrods.Xdr.Codec.Unions.{Res, res, res-Lawful}
use nfsrods.Xdr.Codec.Chains.{chain, chain-Lawful, chained, chained-Lawful}
use nfsrods.Mount.Table.{Mountbody}
use nfsrods.Xdr.Scalars.{
  int_array, int_array-Lawful, unbounded, xdr_dirpath, xdr_dirpath-Lawful, xdr_fhandle3,
  xdr_fhandle3-Lawful, xdr_name, xdr_name-Lawful,
}

-- `ml_next` is the list of the bodies behind the first.
unfoldable pub xdr_mountbody : (x : Xdr) (depth : ℕ) → Codec (Mountbody × List Mountbody)
xdr_mountbody x depth = chain x depth (
    struct (λ v. (v.hostname, v.directory)) (λ p. record { hostname = p.0; directory = p.1 })
      (both (xdr_name x) (xdr_dirpath x)))

xdr_mountbody-Lawful : (x : Xdr) (depth : ℕ) → Lawful (xdr_mountbody x depth)
unfolding xdr_mountbody
xdr_mountbody-Lawful x depth = chain-Lawful x depth (
    struct-Lawful (λ v. (v.hostname, v.directory)) (λ p. record { hostname = p.0; directory = p.1 })
      (λ v. refl) (both-Lawful (xdr_name-Lawful x) (xdr_dirpath-Lawful x)))

unfoldable pub xdr_mountlist : (x : Xdr) (depth : ℕ) → Codec (List Mountbody)
xdr_mountlist x depth = chained x (xdr_mountbody x depth)

pub xdr_mountlist-Lawful : (x : Xdr) (depth : ℕ) → Lawful (xdr_mountlist x depth)
unfolding xdr_mountlist
xdr_mountlist-Lawful x depth = chained-Lawful x (xdr_mountbody-Lawful x depth)

-- A node is its `gr_name`; `gr_next` is the list of the nodes behind it.
xdr_groupnode : (x : Xdr) (depth : ℕ) → Codec ((List ℕ) × List (List ℕ))
xdr_groupnode x depth = chain x depth (xdr_name x)

xdr_groupnode-Lawful : (x : Xdr) (depth : ℕ) → Lawful (xdr_groupnode x depth)
unfolding xdr_groupnode
xdr_groupnode-Lawful x depth = chain-Lawful x depth (xdr_name-Lawful x)

xdr_groups : (x : Xdr) (depth : ℕ) → Codec (List (List ℕ))
xdr_groups x depth = chained x (xdr_groupnode x depth)

xdr_groups-Lawful : (x : Xdr) (depth : ℕ) → Lawful (xdr_groups x depth)
unfolding xdr_groups
xdr_groups-Lawful x depth = chained-Lawful x (xdr_groupnode-Lawful x depth)

-- `struct exportnode`, without `ex_next`.
pub record Exportnode : Type 0 where
  pub ex_dir : List ℕ
  pub ex_groups : List (List ℕ)

xdr_exportnode : (x : Xdr) (depth : ℕ) → Codec (Exportnode × List Exportnode)
xdr_exportnode x depth = chain x depth (
    struct (λ v. (v.ex_dir, v.ex_groups)) (λ p. record { ex_dir = p.0; ex_groups = p.1 })
      (both (xdr_dirpath x) (xdr_groups x depth)))

xdr_exportnode-Lawful : (x : Xdr) (depth : ℕ) → Lawful (xdr_exportnode x depth)
unfolding xdr_exportnode
xdr_exportnode-Lawful x depth = chain-Lawful x depth (
    struct-Lawful (λ v. (v.ex_dir, v.ex_groups)) (λ p. record { ex_dir = p.0; ex_groups = p.1 })
      (λ v. refl) (both-Lawful (xdr_dirpath-Lawful x) (xdr_groups-Lawful x depth)))

xdr_exports : (x : Xdr) (depth : ℕ) → Codec (List Exportnode)
xdr_exports x depth = chained x (xdr_exportnode x depth)

xdr_exports-Lawful : (x : Xdr) (depth : ℕ) → Lawful (xdr_exports x depth)
unfolding xdr_exports
xdr_exports-Lawful x depth = chained-Lawful x (xdr_exportnode-Lawful x depth)

-- `struct mountres3_ok`
pub record Mountres3Ok : Type 0 where
  pub fhandle : List ℕ
  pub auth_flavors : List ℕ

xdr_mountres3_ok : (x : Xdr) → Codec Mountres3Ok
xdr_mountres3_ok x =
    struct (λ v. (v.fhandle, v.auth_flavors)) (λ p. record { fhandle = p.0; auth_flavors = p.1 })
      (both (xdr_fhandle3 x) (int_array x unbounded))

xdr_mountres3_ok-Lawful : (x : Xdr) → Lawful (xdr_mountres3_ok x)
unfolding xdr_mountres3_ok
xdr_mountres3_ok-Lawful x =
    struct-Lawful (λ v. (v.fhandle, v.auth_flavors))
      (λ p. record { fhandle = p.0; auth_flavors = p.1 }) (λ v. refl)
      (both-Lawful (xdr_fhandle3-Lawful x) (int_array-Lawful x unbounded (omega arith)))

-- `status`, and `resok` or `resfail`.
xdr_mountres3 : (x : Xdr) → Codec (Res Mountres3Ok (Unit {0}))
xdr_mountres3 x = res x (xdr_mountres3_ok x) nothing

xdr_mountres3-Lawful : (x : Xdr) → Lawful (xdr_mountres3 x)
unfolding xdr_mountres3
xdr_mountres3-Lawful x = res-Lawful x (xdr_mountres3_ok-Lawful x) nothing-Lawful
