-- ===== src/Mount/Flags.antt =====
-- The mount flags of mount_linux.go: the table of option names, and the reading of options. A flag word
-- is its bits. The numbers are the bits of Linux's MS_ constants, as Go's syscall package has them; its
-- MS_ASYNC, a flag of msync, is bit 0, the bit of MS_RDONLY.
pub mod Emitted
use apptainer.Prelude.{
  ℕ, String, List, [], ◌∷◌, ◌++◌, Bool, true, false, not, ◌&&◌, ◌||◌, Option, none, some, eqb,
  if◌then◌else◌, ◌==◌, any, all, Assoc, lookup, trim_space,
}

abbrev pub Flags : Type 0
Flags = ℕ → Bool

-- A constant, by the positions of its bits.
abbrev pub Mask : Type 0
Mask = List ℕ

abbrev pub ms_remount : ℕ
ms_remount = 5

abbrev pub ms_bind : ℕ
ms_bind = 12

abbrev pub ms_rec : ℕ
ms_rec = 14

abbrev pub mask_has : Mask → ℕ → Bool
mask_has m i = any (λ j. eqb j i) m

abbrev pub no_flags : Flags
no_flags i = false

-- `flags | m`
abbrev pub or_mask : Flags → Mask → Flags
or_mask f m i = f i || mask_has m i

-- `flags &^ m`
abbrev pub and_not : Flags → Mask → Flags
and_not f m i = f i && not (mask_has m i)

-- `flags & m`
abbrev pub and_mask : Flags → Mask → Flags
and_mask f m i = f i && mask_has m i

-- `flags & m != 0`
abbrev pub meets : Flags → Mask → Bool
meets f m = any f m

-- `m != 0 && m == (flags & m)`
abbrev pub covers_mask : Flags → Mask → Bool
covers_mask f [] = false
covers_mask f (i ∷ m) = all f (i ∷ m)

unfoldable pub mount_flags : Assoc Mask
mount_flags =
    ("acl", [])
    ∷ ("async", 0 ∷ [])
    ∷ ("atime", [])
    ∷ ("bind", 12 ∷ [])
    ∷ ("defaults", [])
    ∷ ("dev", [])
    ∷ ("diratime", [])
    ∷ ("dirsync", 7 ∷ [])
    ∷ ("exec", [])
    ∷ ("iversion", [])
    ∷ ("lazytime", [])
    ∷ ("loud", [])
    ∷ ("mand", 6 ∷ [])
    ∷ ("noacl", [])
    ∷ ("noatime", 10 ∷ [])
    ∷ ("nodev", 2 ∷ [])
    ∷ ("nodiratime", 11 ∷ [])
    ∷ ("noexec", 3 ∷ [])
    ∷ ("noiversion", [])
    ∷ ("nolazytime", [])
    ∷ ("nomand", [])
    ∷ ("norelatime", [])
    ∷ ("nostrictatime", [])
    ∷ ("nosuid", 1 ∷ [])
    ∷ ("private", 18 ∷ [])
    ∷ ("rbind", 12 ∷ 14 ∷ [])
    ∷ ("rprivate", 18 ∷ 14 ∷ [])
    ∷ ("rslave", 19 ∷ 14 ∷ [])
    ∷ ("rshared", 20 ∷ 14 ∷ [])
    ∷ ("runbindable", 17 ∷ 14 ∷ [])
    ∷ ("relatime", 21 ∷ [])
    ∷ ("remount", 5 ∷ [])
    ∷ ("ro", 0 ∷ [])
    ∷ ("rw", [])
    ∷ ("shared", 20 ∷ [])
    ∷ ("slave", 19 ∷ [])
    ∷ ("silent", 15 ∷ [])
    ∷ ("strictatime", 24 ∷ [])
    ∷ ("suid", [])
    ∷ ("sync", 4 ∷ [])
    ∷ ("unbindable", 17 ∷ [])
    ∷ []

abbrev pub propagation_flags : Mask
propagation_flags = 17 ∷ 20 ∷ 18 ∷ 19 ∷ []

abbrev pub has_remount_flag : Flags → Bool
has_remount_flag f = f ms_remount

abbrev pub has_propagation_flag : Flags → Bool
has_propagation_flag f = meets f propagation_flags

-- `flags&(syscall.MS_BIND|syscall.MS_REMOUNT|syscall.MS_REC) != 0`
abbrev pub is_forbidden : Flags → Bool
is_forbidden f = meets f (ms_bind ∷ ms_remount ∷ ms_rec ∷ [])

abbrev pub flags_or : Option Mask → Flags → Flags
flags_or none f = f
flags_or (some m) f = or_mask f m

abbrev pub opt_or : Option Mask → String → List String → List String
opt_or none o os = o ∷ os
opt_or (some m) o os = os

-- `ConvertOptions`: the flags of the options that the table has, and the other options.
unfoldable pub flags_of : List String → Flags
unfolding mount_flags
flags_of [] = no_flags
flags_of (o ∷ os) = flags_or (lookup (trim_space o) mount_flags) (flags_of os)

unfoldable pub other_options : List String → List String
unfolding mount_flags
other_options [] = []
other_options (o ∷ os) =
    opt_or (lookup (trim_space o) mount_flags) (trim_space o) (other_options os)

abbrev pub convert_options : List String → Flags × List String
convert_options os = (flags_of os, other_options os)

-- The loop of `add` over the table, from its end: the options of the flags. `bind` tells that an option
-- with the bind bit has been given.
unfoldable pub flag_options : Flags → Bool → Assoc Mask → List String
flag_options f bind [] = []
flag_options f bind ((o, m) ∷ rows) =
    let skipped = flag_options f bind rows in
    let taken = flag_options f (bind || mask_has m ms_bind) rows in
    if covers_mask f m then (if bind && mask_has m ms_bind then skipped else o ∷ taken) else skipped

-- The value of `bind` after the loop.
unfoldable pub sets_bind : Flags → Assoc Mask → Bool
sets_bind f [] = false
sets_bind f ((o, m) ∷ rows) = (covers_mask f m && mask_has m ms_bind) || sets_bind f rows
