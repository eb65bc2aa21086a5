-- ===== src/Csi/Controller/Capacity.antt =====
-- What `get_capacity` of crates/csi/src/controller.rs answers.
use rlvm.Base.{
  ◌≡◌, ◌≢◌, ◌⊎◌, refl, ap, inl, inr, String, ◌<>◌, Bool, true, false, Option, none, some, List, [],
  ◌∷◌, any, ℕ, arith, Bool-cases,
}
use rlvm.Base.Int.{ℤ, pos, negsuc, ◌==◌, as_i64}
use rlvm.Base.Text
use rlvm.Csi.Controller.Handlers.{get_capacity}
use rlvm.Csi.Controller.Parts.{
  Platform, RlvmController, capability_mode, is_multi_node, map_eq, same_topology,
  get_host_topology,
}
use rlvm.Csi.Spec.Controller.{GetCapacityRequest, no_capacity}
use rlvm.Csi.Spec.Messages.{AccessMode, AccessType, Map, Topology, VolumeCapability, mode_of}
use rlvm.Rpc.{Status, Result, internal, ok, err, reply, fail, with_extension}
use rlvm.Volumed.Spec.{empty, GetFreeBytesResponse, VolumeService}
use text.Mathlib.TextEquality.{eq_iff}
use text.Mathlib.TextPositions.{eq_refl}

-- The numbers of csi.proto for access by several nodes: MULTI_NODE_READER_ONLY,
-- MULTI_NODE_SINGLE_WRITER and MULTI_NODE_MULTI_WRITER.
abbrev pub IsSeveral : Option AccessMode → Type 0
IsSeveral none = ⊥
IsSeveral (some a) = (a.mode ≡ pos 3) ⊎ (a.mode ≡ pos 4) ⊎ (a.mode ≡ pos 5)

-- One of the capabilities is for access by several nodes.
abbrev pub AsksSeveral : List VolumeCapability → Type 0
AsksSeveral [] = ⊥
AsksSeveral (cap ∷ caps) = IsSeveral cap.access_mode ⊎ AsksSeveral caps

int_eq-eq : (n : ℤ) (k : ℕ) → (n == pos k) ≡ true → n ≡ pos k
int_eq-eq (pos m) k h = ground arith
int_eq-eq (negsuc m) k h = ground arith

-- The test of the code is for these numbers and no others.
is_multi_node-IsSeveral :
    (a : AccessMode)
    → (IsSeveral (some a) × (is_multi_node (mode_of a) ≡ true))
      ⊎ ((¬ IsSeveral (some a)) × (is_multi_node (mode_of a) ≡ false))
is_multi_node-IsSeveral a = elim (Bool-cases (a.mode == pos 3)) [
  | inl three ↦ inl (inl (int_eq-eq a.mode 3 three), ground (arith, int_eq-eq a.mode 3 three))
  | inr not_three ↦ elim (Bool-cases (a.mode == pos 4)) [
    | inl four ↦ inl (inr (inl (int_eq-eq a.mode 4 four)), ground (arith, int_eq-eq a.mode 4 four))
    | inr not_four ↦ elim (Bool-cases (a.mode == pos 5)) [
      | inl five ↦
          inl (inr (inr (int_eq-eq a.mode 5 five)), ground (arith, int_eq-eq a.mode 5 five))
      | inr not_five ↦ inr (λ h. ground arith, ground arith)
    ]
  ]
]

asked_mode-cases :
    (mode : Option AccessMode) (access : Option AccessType)
    → let multi =
        is_multi_node (capability_mode (record { access_mode = mode; access_type = access })) in
      (IsSeveral mode × (multi ≡ true)) ⊎ ((¬ IsSeveral mode) × (multi ≡ false))
asked_mode-cases none access = inr (λ h. h, refl)
asked_mode-cases (some a) access = is_multi_node-IsSeveral a

abbrev asks_multi_node : List VolumeCapability → Bool
asks_multi_node caps = any (λ cap. is_multi_node (capability_mode cap)) caps

AsksSeveral-cases :
    (caps : List VolumeCapability)
    → (AsksSeveral caps × (asks_multi_node caps ≡ true))
      ⊎ ((¬ AsksSeveral caps) × (asks_multi_node caps ≡ false))
AsksSeveral-cases [] = inr (λ h. h, refl)
AsksSeveral-cases (cap ∷ caps) = elim (asked_mode-cases cap.access_mode cap.access_type) [
  | inl (several, multi) ↦ inl (inl several, ground arith)
  | inr (single, not_multi) ↦ elim (AsksSeveral-cases caps) [
    | inl (several, multi) ↦ inl (inr several, ground arith)
    | inr (others, none_multi) ↦
        inr (λ h. elim h [ inl here ↦ single here | inr there ↦ others there ], ground arith)
  ]
]

-- A map that equals the segments of the own host is the one with that entry alone.
own_segments : (id : String) (m : Map) → map_eq (("host", id) ∷ []) m ≡ true → m ≡ ("host", id) ∷ []
own_segments id [] h = ground arith
own_segments id ((k, v) ∷ []) h = elim (Bool-cases (Text.same_text "host" k)) [
  | inr other ↦ ground arith
  | inl host ↦ elim (Bool-cases (Text.same_text id v)) [
    | inr other ↦ ground arith
    | inl same ↦ ground (arith, eq_iff "host" k, eq_iff id v)
  ]
]
own_segments id (a ∷ b ∷ m) h = ground arith

-- The test of the code is for the topology of the own host.
same_topology-own :
    (c : RlvmController) (asked : Option Topology)
    → same_topology (get_host_topology c) asked ≡ true
    → asked ≡ some (get_host_topology c)
same_topology-own c none h = ground arith
same_topology-own c (some t) h =
    ap some (ap (λ m. record { segments = m }) (own_segments c.node_id t.segments h))

own_differs :
    (c : RlvmController) (asked : Option Topology)
    → asked ≡ some (get_host_topology c)
    → same_topology (get_host_topology c) asked ≢ false
own_differs c asked own = rw own (λ other. ground (arith, eq_refl c.node_id))

same_topology-cases :
    (c : RlvmController) (asked : Option Topology)
    → ((asked ≡ some (get_host_topology c)) × (same_topology (get_host_topology c) asked ≡ true))
      ⊎ ((asked ≢ some (get_host_topology c)) × (same_topology (get_host_topology c) asked ≡ false))
same_topology-cases c asked = elim (Bool-cases (same_topology (get_host_topology c) asked)) [
  | inl same ↦ inl (same_topology-own c asked same, same)
  | inr other ↦ inr (λ own. own_differs c asked own other, other)
]

module _ {S : Type 0} (platform : Platform) (c : RlvmController) (client : VolumeService S)
    (req : GetCapacityRequest) (s : S) where
  -- What the request asks for has no capacity here, to the handler: access by several nodes, or the
  -- topology of the controller's own host.
  abbrev pub IsShorted : Type 0
  IsShorted =
      AsksSeveral req.volume_capabilities ⊎ (req.accessible_topology ≡ some (get_host_topology c))

  -- The answer to any other request, by what volumed reports.
  abbrev pub IsReported : Result Status GetFreeBytesResponse → S → Type 0
  IsReported (ok free) t = get_capacity platform c (with_extension client req) s ≡ (
    reply (record {
      available_capacity = as_i64 free.bytes_free;
      maximum_volume_size = none;
      minimum_volume_size = some (pos 536_870_912);
    }),
    t,
  )
  IsReported (err e) t =
      get_capacity platform c (with_extension client req) s
      ≡ (fail (internal ("could not get_free_bytes from volumed: " <> platform.show_status e)), t)

  tests :
      ((IsShorted)
        × (get_capacity platform c (with_extension client req) s ≡ (reply no_capacity, s)))
      ⊎ ((¬ IsShorted)
          × (asks_multi_node req.volume_capabilities ≡ false)
          × (same_topology (get_host_topology c) req.accessible_topology ≡ false))
  unfolding get_capacity
  tests = elim (AsksSeveral-cases req.volume_capabilities) [
    | inl (several, multi) ↦ inl (inl several, ground arith)
    | inr (single, not_multi) ↦ elim (same_topology-cases c req.accessible_topology) [
      | inl (own, same) ↦ inl (inr own, ground arith)
      | inr (other, differs) ↦
          inr
            (λ h. elim h [ inl several ↦ single several | inr own ↦ other own ], not_multi, differs)
    ]
  ]

  reported :
      (r : Result Status GetFreeBytesResponse) (t : S)
      → client.get_free_bytes empty s ≡ (r, t)
      → asks_multi_node req.volume_capabilities ≡ false
      → same_topology (get_host_topology c) req.accessible_topology ≡ false
      → IsReported r t
  unfolding get_capacity
  reported (ok free) t answered single other = ground arith
  reported (err e) t answered single other = ground arith

  -- A request is answered with no capacity, and the state is left, if one of its capabilities has
  -- the number of a mode by which several nodes have access, or if it names the topology of the
  -- controller's own host. Every other request, even for the topology of another host, gets what
  -- volumed reports, in the state that volumed leaves: the free bytes, cast to `i64`, with the
  -- smallest size of a volume, or an internal error if volumed fails.
  pub get_capacity_exact :
      (r : Result Status GetFreeBytesResponse) (t : S)
      → client.get_free_bytes empty s ≡ (r, t)
      → (IsShorted
          × (get_capacity platform c (with_extension client req) s ≡ (reply no_capacity, s)))
        ⊎ ((¬ IsShorted) × IsReported r t)
  get_capacity_exact r t answered = elim tests [
    | inl shorted ↦ inl shorted
    | inr (rest, single, other) ↦ inr (rest, reported r t answered single other)
  ]
