-- ===== src/Kernel.antt =====
-- The static tables of the kernel's subsystems, together: the state that the later parts change.
-- src/core/endpoint.c, grant.c, user_grant.c, ring.c and user_ring.c, and the headers of message and
-- ring under src/include/scdk/. Every subsystem's slot holds the id of the object it belongs to.
use scdk.Base.{ℕ, Bool, false}
use scdk.Initrd.{Entry, Initrd, empty_entry}
use scdk.Cap.{CapSpace, empty_space}

abbrev pub max_endpoints : ℕ
max_endpoints = 64

abbrev pub max_services : ℕ
max_services = 32

abbrev pub max_grants : ℕ
max_grants = 128

abbrev pub max_user_grants : ℕ
max_user_grants = 128

abbrev pub max_rings : ℕ
max_rings = 64

abbrev pub ring_max_entries : ℕ
ring_max_entries = 64

abbrev pub max_user_rings : ℕ
max_user_rings = 64

-- `struct scdk_message`
pub record Message : Type 0 where
  pub sender : ℕ
  pub target : ℕ
  pub type : ℕ
  pub arg0 : ℕ
  pub arg1 : ℕ
  pub arg2 : ℕ
  pub arg3 : ℕ
  pub status : ℕ

-- `struct scdk_endpoint`. A handler is the number of a function, 0 for a null pointer.
pub record Endpoint : Type 0 where
  pub object_id : ℕ
  pub handler : ℕ
  pub context : ℕ

-- `struct scdk_service_slot`
pub record ServiceSlot : Type 0 where
  pub service_id : ℕ
  pub endpoint : ℕ

-- `struct scdk_grant`
pub record Grant : Type 0 where
  pub frame_cap : ℕ
  pub base : ℕ
  pub offset : ℕ
  pub length : ℕ
  pub rights : ℕ
  pub lifetime : ℕ
  pub refcount : ℕ

-- `struct scdk_grant_slot`
pub record GrantSlot : Type 0 where
  pub object_id : ℕ
  pub grant : Grant

-- `struct scdk_user_grant_slot`
pub record UserGrantSlot : Type 0 where
  pub object_id : ℕ
  pub source_task : ℕ
  pub target_endpoint : ℕ
  pub user_base : ℕ
  pub length : ℕ
  pub rights : ℕ
  pub lifetime : ℕ
  pub revoked : Bool

-- `struct scdk_ring_desc`
pub record RingDesc : Type 0 where
  pub op : ℕ
  pub cap : ℕ
  pub grant : ℕ
  pub offset : ℕ
  pub length : ℕ
  pub flags : ℕ

-- `struct scdk_completion`
pub record Completion : Type 0 where
  pub op : ℕ
  pub status : ℕ
  pub result0 : ℕ
  pub result1 : ℕ

-- `struct scdk_ring`; `sq` and `cq` point to the storage of the ring's own slot, whose contents
-- stand here.
pub record Ring : Type 0 where
  pub entries : ℕ
  pub submit_head : ℕ
  pub submit_tail : ℕ
  pub complete_head : ℕ
  pub complete_tail : ℕ
  pub sq : ℕ → RingDesc
  pub cq : ℕ → Completion
  pub bound_target : ℕ

-- `struct scdk_ring_slot`
pub record RingSlot : Type 0 where
  pub object_id : ℕ
  pub ring : Ring

-- `struct scdk_user_ring_slot`
pub record UserRingSlot : Type 0 where
  pub in_use : Bool
  pub source_task : ℕ
  pub ring_cap : ℕ
  pub target_endpoint : ℕ

-- `struct scdk_tmpfs_file`
pub record OpenFile : Type 0 where
  pub object_id : ℕ
  pub cap : ℕ
  pub backing : Entry
  pub is_open : Bool

-- `memory` is the byte at each address that a request to a service inside the kernel points to;
-- `archive` is the state of src/mm/initrd.c.
pub record Kernel : Type 0 where
  pub space : CapSpace
  pub endpoints : ℕ → Endpoint
  pub services : ℕ → ServiceSlot
  pub grants : ℕ → GrantSlot
  pub user_grants : ℕ → UserGrantSlot
  pub rings : ℕ → RingSlot
  pub user_rings : ℕ → UserRingSlot
  pub files : ℕ → OpenFile
  pub tmpfs_started : Bool
  pub vfs_root : ℕ
  pub vfs_started : Bool
  pub archive : Initrd
  pub memory : ℕ → ℕ

abbrev pub empty_endpoint : Endpoint
empty_endpoint = record { object_id = 0; handler = 0; context = 0 }

abbrev pub empty_grant : Grant
empty_grant = record {
  frame_cap = 0;
  base = 0;
  offset = 0;
  length = 0;
  rights = 0;
  lifetime = 0;
  refcount = 0;
}

abbrev pub empty_user_grant : UserGrantSlot
empty_user_grant = record {
  object_id = 0;
  source_task = 0;
  target_endpoint = 0;
  user_base = 0;
  length = 0;
  rights = 0;
  lifetime = 0;
  revoked = false;
}

abbrev pub empty_desc : RingDesc
empty_desc = record { op = 0; cap = 0; grant = 0; offset = 0; length = 0; flags = 0 }

abbrev pub empty_completion : Completion
empty_completion = record { op = 0; status = 0; result0 = 0; result1 = 0 }

abbrev pub empty_ring : Ring
empty_ring = record {
  entries = 0;
  submit_head = 0;
  submit_tail = 0;
  complete_head = 0;
  complete_tail = 0;
  sq = λ i. empty_desc;
  cq = λ i. empty_completion;
  bound_target = 0;
}

abbrev pub empty_file : OpenFile
empty_file = record { object_id = 0; cap = 0; backing = empty_entry; is_open = false }

-- The zeroed static storage at boot.
abbrev pub boot : Kernel
boot = record {
  space = empty_space;
  endpoints = λ i. empty_endpoint;
  services = λ i. record { service_id = 0; endpoint = 0 };
  grants = λ i. record { object_id = 0; grant = empty_grant };
  user_grants = λ i. empty_user_grant;
  rings = λ i. record { object_id = 0; ring = empty_ring };
  user_rings = λ i. record { in_use = false; source_task = 0; ring_cap = 0; target_endpoint = 0 };
  files = λ i. empty_file;
  tmpfs_started = false;
  vfs_root = 0;
  vfs_started = false;
  archive = record { files = λ i. empty_entry; count = 0; initialized = false };
  memory = λ a. 0;
}
