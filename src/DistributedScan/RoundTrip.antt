-- ===== src/DistributedScan/RoundTrip.antt =====
-- A bind that is serialized, received, and made a worker template.
use duckdb_paimon.Prelude.{
  ◌≡◌, refl, sym, ap, ◌∙◌, false, String, [], ◌∷◌, arith, is_empty, is_some, Map, lookup,
  lookup-assign, if◌then◌else◌,
}
use duckdb_paimon.Sql.{Result, ok, >>=-eq-ok}
use duckdb_paimon.TablePath.{Text}
use duckdb_paimon.Wire.{Kind, Wire, Reads, IsFaithful}
use duckdb_paimon.Scan.{ScanBindData, ScanPhase}
use duckdb_paimon.DistributedScan.Transport.{
  OptionKeys, BindTransport, BindKind, kind_code, kind_of, phase_of, bind_kind, validate_transport,
  transport_of, incomplete, get_transport_base, write_transport, read_transport, write_bind,
  accept_bind, serialize_bind, deserialize_bind, overwrite_each, received, create_worker_bind,
}

pub lookup-overwrite_each :
    (portable options : Map String) (key : String)
    → lookup key (overwrite_each portable options)
      ≡ (if is_some (lookup key portable) then lookup key portable else lookup key options)
unfolding overwrite_each lookup
lookup-overwrite_each [] options key = refl
lookup-overwrite_each ((k, v) ∷ portable) options key = ground (
  arith,
  lookup-assign k key v (overwrite_each portable options),
  lookup-overwrite_each portable options key,
)

kind_of_code : (kind : BindKind) → kind_of (kind_code kind) ≡ ok kind
unfolding kind_of
kind_of_code BindKind.coordinator = refl
kind_of_code BindKind.worker = refl

ok_injective : {A : Type 0} (a b : A) → ok a ≡ ok b → a ≡ b
ok_injective a b h = cc

bind_kind_of_phase : (kind : BindKind) → bind_kind (phase_of kind) ≡ ok kind
unfolding bind_kind
bind_kind_of_phase BindKind.coordinator = refl
bind_kind_of_phase BindKind.worker = refl

valid_split_set :
    (keys : OptionKeys) (t : BindTransport)
    → validate_transport keys t ≡ ok tt
    → (is_empty t.split_set_id) ≡ false
unfolding validate_transport incomplete
valid_split_set keys t h = ground arith

-- The serializer reads back the strings, types, names and options of a transport, and whatever is a number,
-- a truth value or a text.
pub record Carries (wire : Wire) (t : BindTransport) : Type 0 where
  pub faithful : IsFaithful wire
  pub table_data_path : Reads wire Kind.string t.table_data_path
  pub table_schema_json : Reads wire Kind.string t.table_schema_json
  pub return_types : Reads wire Kind.types t.return_types
  pub return_names : Reads wire Kind.names t.return_names
  pub part_keys : Reads wire Kind.names t.part_keys
  pub portable_options : Reads wire Kind.options t.portable_options

read_transport-write_transport :
    (wire : Wire) (t : BindTransport) (rest : Text)
    → Carries wire t
    → read_transport wire (write_transport wire t rest) ≡ ok (t, rest)
unfolding read_transport write_transport
read_transport-write_transport wire t rest c =
    let f = c.faithful in
    simp (
      f.texts, f.integers, f.booleans, c.table_data_path, c.table_schema_json, c.return_types,
      c.return_names, c.part_keys, c.portable_options,
    )

module _ {Predicate Split : Type 0} (keys : OptionKeys) (wire : Wire) where
  -- What is written as a kind and a transport is received as these.
  deserialize_bind-write_bind :
      (local_options : String → Result (Map String)) (kind : BindKind) (t : BindTransport)
      (rest : Text)
      → Carries wire t
      → deserialize_bind keys {Predicate = Predicate} {Split = Split} wire local_options
          (write_bind wire (kind_code kind) t rest)
        ≡ accept_bind keys local_options kind t
  unfolding deserialize_bind write_bind
  deserialize_bind-write_bind local_options kind t rest c =
      let f = c.faithful in
      rw
        (
          f.indexes (kind_code kind) 1
              (wire.open_object 2 (write_transport wire t (wire.close rest))),
          kind_of_code kind,
          f.enters 2 (write_transport wire t (wire.close rest)),
          read_transport-write_transport wire t (wire.close rest) c,
          f.leaves rest,
        )
        refl

  -- What is written of a bind is the transport of its fields, which is valid.
  written :
      (bind : ScanBindData Predicate Split) (rest bytes : Text)
      → serialize_bind keys wire bind rest ≡ ok bytes
      → (kind : BindKind) × (bind_kind bind.distributed.phase ≡ ok kind)
        × (validate_transport keys (transport_of keys bind) ≡ ok tt)
        × (write_bind wire (kind_code kind) (transport_of keys bind) rest ≡ bytes)
  unfolding serialize_bind get_transport_base
  written bind rest bytes h =
      let (kind, e1, h1) = >>=-eq-ok (bind_kind bind.distributed.phase) _ h in
      let (base, e2, h2) = >>=-eq-ok (get_transport_base keys bind) _ h1 in
      let (u, e3, h3) = >>=-eq-ok (validate_transport keys (transport_of keys bind)) _ e2 in
      let (u', e4, h4) = >>=-eq-ok (validate_transport keys base) _ h2 in
      let same : transport_of keys bind ≡ base = cc in
      (
        kind,
        e1,
        e3,
        ap (λ x. write_bind wire (kind_code kind) x rest) same
            ∙ ok_injective (write_bind wire (kind_code kind) base rest) bytes h4,
      )

  -- A bind with a valid transport is written as that transport.
  pub rewritten :
      (bind : ScanBindData Predicate Split) (kind : BindKind) (t : BindTransport) (rest : Text)
      → bind_kind bind.distributed.phase ≡ ok kind
      → transport_of keys bind ≡ t
      → validate_transport keys t ≡ ok tt
      → serialize_bind keys wire bind rest ≡ ok (write_bind wire (kind_code kind) t rest)
  unfolding serialize_bind get_transport_base
  rewritten bind kind t rest e1 e2 valid = rw (e1, e2, valid, valid)

  -- The bytes that a bind is serialized to are received, where the serializer reads back the fields of its
  -- transport: with the same table, schema, output columns, partition keys and split set, in the phase of
  -- the same kind and with no assigned splits. The options are the portable ones, over the receiver's own.
  pub deserialize_bind-serialize_bind :
      (local_options : String → Result (Map String)) (bind : ScanBindData Predicate Split)
      (rest bytes : Text) (options : Map String)
      → Carries wire (transport_of keys bind)
      → serialize_bind keys wire bind rest ≡ ok bytes
      → local_options bind.table_data_path ≡ ok options
      → (bind' : ScanBindData Predicate Split) × (deserialize_bind keys wire local_options bytes
          ≡ ok bind')
        × (bind'.path ≡ bind.path)
        × (bind'.table_data_path ≡ bind.table_data_path)
        × (bind'.table_schema_json ≡ bind.table_schema_json)
        × (bind'.part_keys ≡ bind.part_keys)
        × (bind'.distributed.schema_id ≡ bind.distributed.schema_id)
        × (bind'.distributed.append_only ≡ bind.distributed.append_only)
        × (bind'.distributed.return_types ≡ bind.distributed.return_types)
        × (bind'.distributed.return_names ≡ bind.distributed.return_names)
        × (bind'.distributed.split_set_id ≡ bind.distributed.split_set_id)
        × (bind_kind bind'.distributed.phase ≡ bind_kind bind.distributed.phase)
        × (bind'.distributed.assigned_splits ≡ [])
        × ((key : String)
            → lookup key bind'.paimon_options ≡ (
                if is_some (lookup key (transport_of keys bind).portable_options)
                then lookup key (transport_of keys bind).portable_options
                else lookup key options))
  unfolding accept_bind transport_of
  deserialize_bind-serialize_bind local_options bind rest bytes options carries h local =
      let (kind, e1, valid, e2) = written bind rest bytes h in
      let t = transport_of keys bind in
      (
        received kind t (overwrite_each t.portable_options options),
        ap (deserialize_bind keys wire local_options) (sym e2)
            ∙ deserialize_bind-write_bind local_options kind t rest carries
            ∙ rw (valid, local) refl,
        refl,
        refl,
        refl,
        refl,
        refl,
        refl,
        refl,
        refl,
        refl,
        bind_kind_of_phase kind ∙ sym e1,
        refl,
        lookup-overwrite_each t.portable_options options,
      )

  -- What a bind is received from.
  accepted :
      (local_options : String → Result (Map String)) (kind : BindKind) (t : BindTransport)
      (bind : ScanBindData Predicate Split)
      → accept_bind keys local_options kind t ≡ ok bind
      → (options : Map String) × (validate_transport keys t ≡ ok tt)
        × (received kind t (overwrite_each t.portable_options options) ≡ bind)
  unfolding accept_bind
  accepted local_options kind t bind h =
      let (u, valid, h1) = >>=-eq-ok (validate_transport keys t) _ h in
      let (options, e, h2) = >>=-eq-ok (local_options t.table_data_path) _ h1 in
      (options, valid, cc)

  -- Where the serializer reads back the fields of a transport and the transport has a portable option: a
  -- bind that is received from the bytes of that transport is serialized again to the same bytes.
  pub serialize_bind-deserialize_bind :
      (local_options : String → Result (Map String)) (kind : BindKind) (t : BindTransport)
      (rest : Text) (bind : ScanBindData Predicate Split)
      → Carries wire t
      → is_empty t.portable_options ≡ false
      → deserialize_bind keys wire local_options (write_bind wire (kind_code kind) t rest) ≡ ok bind
      → serialize_bind keys wire bind rest ≡ ok (write_bind wire (kind_code kind) t rest)
  unfolding transport_of
  serialize_bind-deserialize_bind local_options kind t rest bind carries some_portable h =
      let (options, valid, arrived) =
        accepted local_options kind t bind
          (sym (deserialize_bind-write_bind local_options kind t rest carries) ∙ h) in
      ap (λ b. serialize_bind keys wire b rest) (sym arrived)
      ∙ rewritten (received kind t (overwrite_each t.portable_options options)) kind t rest
          (bind_kind_of_phase kind) (rw some_portable) valid

  -- Where the serializer reads back the fields of a transport and the transport has a portable option: the
  -- worker template of a coordinator bind that is received from its bytes keeps no other option than the
  -- portable ones, and is serialized to the bytes of the same transport, as a worker's.
  pub create_worker_bind-deserialize_bind :
      (local_options : String → Result (Map String)) (t : BindTransport) (rest : Text)
      (bind : ScanBindData Predicate Split)
      → Carries wire t
      → is_empty t.portable_options ≡ false
      → deserialize_bind keys wire local_options
          (write_bind wire (kind_code BindKind.coordinator) t rest)
        ≡ ok bind
      → (worker : ScanBindData Predicate Split) × (create_worker_bind bind ≡ ok worker)
        × (worker.paimon_options ≡ t.portable_options)
        × (worker.distributed.phase ≡ ScanPhase.worker_template)
        × (serialize_bind keys wire worker rest
            ≡ ok (write_bind wire (kind_code BindKind.worker) t rest))
  unfolding create_worker_bind transport_of
  create_worker_bind-deserialize_bind local_options t rest bind carries some_portable h =
      let (options, valid, arrived) =
        accepted local_options BindKind.coordinator t bind (
          sym (deserialize_bind-write_bind local_options BindKind.coordinator t rest carries)
          ∙ h) in
      let worker = received BindKind.worker t t.portable_options in
      (
        worker,
        ap create_worker_bind (sym arrived) ∙ rw (valid_split_set keys t valid),
        refl,
        refl,
        rewritten worker BindKind.worker t rest (bind_kind_of_phase BindKind.worker)
            (rw some_portable) valid,
      )
