-- ===== src/Lib.antt =====
-- Apptainer: the parts of the program that decide who may run what, with which ids, capabilities and
-- mounts.
--
-- Capabilities (pkg/util/capabilities)
--   Table: Map of capabilities.go. Normalize: Normalize, Split, RemoveDuplicated and normalize; the
--   order in which the runtime ranges over Map is an argument. Config: config.go, the lists that an
--   administrator grants to users and groups (AddUserCaps, DropUserCaps, CheckUserCaps and the like).
--   Process: process_linux.go; what capget answers and whether capset accepts are arguments.
-- Ecl (internal/pkg/syecl)
--   Hex: fingerprints as texts. Config: EclConfig, ValidateConfig and getExecGroup; EvalSymlinks and
--   Abs are arguments. Policy: checkWhiteList, checkWhiteStrict and checkBlackList. Decide: shouldRun,
--   ShouldRun and ShouldRunFp; the image library is a record of what its functions answer.
-- Fakeroot (internal/pkg/fakeroot)
--   Decimal: ParseUint and %d. Entry: Entry and parseEntry. Lookup: readSubid, getMappingEntries and
--   GetUserEntry; libsubid is an argument. Config: GetConfig, Close, AddUser, RemoveUser, EnableUser,
--   DisableUser, GetIDRange and IsUIDMapped. Numbers of 32 bits keep their bound. The lines of the file
--   and the user database are arguments.
-- Mount (internal/pkg/util/fs/mount)
--   Flags: mountFlags and ConvertOptions; a flag word is the function of its bits, with the numbers of
--   Linux's MS_ constants. Points: the points by tag, add, the searches and the removals. Adders:
--   AddImage to AddPropagation. Import: ConvertSpec, Import and ImportFromSpec; quoting, base64 and
--   scanning are arguments. Images: GetOffset, GetSizeLimit, GetKey and SkipOnError. System:
--   PointList.Sort, GetTagList and MountAll with its hooks.
-- Remote (internal/pkg/remote)
--   Uri: util/util.go; url.Parse is an argument. Keyservers: endpoint/config.go and keyserver.go, the
--   ordered keyservers of an endpoint (AddKeyserver, RemoveKeyserver, UpdateKeyserversConfig); what
--   GetServiceURI answers is an argument. Config: remote.go, the named remotes and the default
--   (SyncFrom, SetDefault, GetDefault, GetRemote, Add, Remove, Rename). Login: Login and Logout; the
--   credential manager is an argument.
-- Layout (internal/pkg/util/fs/layout)
--   Manager: manager.go, the entries of the session directory (SetRootPath, AddDir, AddFile, AddSymlink,
--   Chmod, Chown, the override directories). Sync: Create and Update; the interface VFS is a record of
--   what its calls do to a state of the world. Session: the paths of session_linux.go. Create:
--   its createLayout. Underlay:
--   layer/underlay/underlay_linux.go (createUnderlay, createLayer, duplicateDir), which works on the
--   layout and on the mount points and then updates the session.
-- Container (internal/pkg)
--   Generate: runtime/engine/config/oci/generate, the changes of an OCI configuration. Env: util/env,
--   the environment of the container's process (SetContainerEnv), which works on that configuration.
--   Bind: pkg/runtime/engine/apptainer/config/bind.go (newBindPath, ParseBindPath).
--
-- Deffile (pkg/build/types)
--   Types: definition.go. Scan: scanDefinitionFile and the tokens that bufio.Scanner makes with it.
--   Regex: fileSplitter, with the matcher that it needs. Sections: parseTokenSection. Header: doHeader.
--   Populate: populateDefinition, GetLabels and isEmpty. Parse: doSections, ParseDefinitionFile and All.
--   Raw: the text that is written of a definition (populateRaw, UpdateDefinitionRaw).
--
-- State is passed explicitly: an operation takes the config or the points and returns the new ones or
-- an error, and one that fails leaves them as they were unless its result says otherwise; what
-- AddKeyserver and RemoveKeyserver leave where they fail is after_add_keyserver and
-- after_remove_keyserver. A map of the source is an association list. A scanner stops at a token of
-- 64 KiB, as bufio.Scanner does.
--
-- Fuel: the scan of AddUser has 65536 rounds, and the source's loop has 65534, from start_max down to
-- start_min in steps of 65536; the loops of RemoveDuplicated have the length of the list, which every
-- round lowers. The loop of Login and Logout that begins again at index 0 after each removal has
-- (n + 1)^2 + 1 rounds for n credentials. The scanner of a definition file has a round for every line,
-- the matcher of fileSplitter one for every character, and the search of createLayout one for every
-- element of a destination; where it runs out, its result is none. The theorems on these functions
-- have no hypothesis on the fuel.
--
-- Not modelled: reading, writing and locking of files, JSON and TOML; nil and empty slices are one; two
-- slices that share memory are two values. Letters outside ASCII have no upper and lower case. NewSession
-- and the overlay layer are left out, and so are the hooks that a layer registers. Images, builds, the
-- runtime engines and the command line have no module yet.
pub mod Prelude
pub mod Capabilities
pub mod Ecl
pub mod Fakeroot
pub mod Mount
pub mod Remote
pub mod Layout
pub mod Container
pub mod Deffile
