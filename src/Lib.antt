-- ===== src/Lib.antt =====
-- Verification library of the second backup generation ("v2") of the Oracle VPS backup tools.
--
-- The program captures each archive role (boot, root, account stacks, ...) as an encrypted stream,
-- cuts the stream into sealed slots, stores every slot as one object, and describes what it stored in
-- pages, role manifests and a root document; a verified capture gets a receipt. The journal of the
-- upload is the durable state that decides what may be sent again, what may be freed, and when a
-- stream is complete. Retention plans which objects of captures beyond the newest four may be deleted.
--
-- Which file models which part:
--   Profile      scripts/backup-v2-profile.ts: the admission ceilings (`limit`), the budget
--                assertion (`assert_budget`) and the free space that is required.
--   Contract     scripts/backup-v2-contract.ts: Fields has the field readers (object, text, hash,
--                integer, ...), Names the object names, Roles the roles, formats and times, Refs
--                the stored objects and listed versions, Slots the sealed slots and PUT intents,
--                Pages the chunk pages and page references, Manifests the role manifest, Root the
--                root document, Receipts the archive proofs and the receipt, Leases the transfer
--                episodes and lease windows, Progress the progress document.
--   Inventory    scripts/backup-v2-inventory.ts: the record frames and the running summary.
--   Upload       scripts/backup-v2-upload.ts, the class `BackupV2UploadJournal`: Records has its
--                records and their keys, Operations its state and one `apply_*` for each case of
--                `apply`, Journal `apply`, `replay` and `open_journal` for the constructor, and
--                `append`. Session, Versions, Reconcile and Sealed have
--                `uploadSealedBackupV2Object`: its context and transfer windows, `reconcile`, and the
--                loop of its attempts.
--   Retention    scripts/backup-v2-retention.ts: Protection has `collectBackupV2ProtectedReferences`,
--                Snapshot `protectionState`, Inventory the complete listing, Plan
--                `planBackupV2Retention`, Deletions the journal of `executeBackupV2Retention`
--                and, in `open_deletions`, its opening, Checks `checkedPlan` and the checks of journal
--                and listing, Execution the run of a plan: `refresh`, `append`, the turns of its loop,
--                and `execute`.
--   Spool        scripts/backup-v2-spool.ts: `writeBackupV2All` and the class `BackupV2Spool`; each call
--                and each turn of its generator is an action, and an order of them is a list. The bytes
--                that the writer has accepted for each slot are kept beside it, for the theorems.
--   Tar          scripts/backup-tar-consumers.ts: Names has the quoted names of a native listing, Paths
--                the normalization of a member's path, Samples the resolution of a restored sample
--                through its links, Numbers the fields of a header, Guard the byte guard over the whole
--                archive stream.
--   Actions      asynchronous code on an explicit state, and the rules to reason about it.
--   Json, Base   JSON values with the length of their text, and the names and lemmas that the
--                modules share.
--
-- How the code corresponds to the model. A function that throws returns a `Result`, with the message
-- of the error. An `unknown` document is a `Value`, a finite JSON value whose numbers are whole and
-- not negative; a typed document is a record, and `validate_x` is the code's `validateBackupV2X`. A
-- string is a list of UTF-16 code units, a `Map` an association list in insertion order. All
-- arithmetic is on ℕ: the code only keeps sums below `Number.MAX_SAFE_INTEGER`, and each limit is
-- written out. Journal state is passed explicitly; a write that fails is a flag of each `append`, and
-- `poisoned` records that an append threw after its record was encoded.
--
-- Effects: Actions has actions, functions of a state that return a result and the next state, also
-- after an error. The capabilities of an execution, the context of an upload, and the storage and the
-- source of a spool are such functions on a world of any type, so that a theorem holds whatever they
-- answer and whenever they throw. The log of a run lists its effects, the newest first, in an
-- execution with the world of each durable record and of each request; it is part of the model only,
-- and a run that is cut short has the log of a prefix. A producer that finds no free slot ends its turn
-- as `waiting`. Clocks are whole milliseconds from zero on, and a window of time is
-- known by its end.
--
-- Parameters: `is_instant` stands for whether `Date.parse` gives a finite number, `instant_ms` for that
-- number and `iso` for `toISOString`; `digest` and `sha` for SHA-256 (`sha` of a value's canonical text),
-- `sha1` and `sha256` for the digests of a spool; `decode_utf8` for the text decoder of the tar guard;
-- and `references`, `role_references` and `versions_page` for the functions of the reader that
-- retention is given, which answers alike throughout one run. A retention snapshot has its catalog as
-- its validator returns it, and the length of its own text.
--
-- Bounds and fuel: `decimal` runs on as many steps as its argument plus one, which is more than its
-- digits; `list_pages` has fuel for 1001 pages, and the code refuses the page after the thousandth by
-- its budget; `search_pages` has fuel for 33 pages, since the code refuses the cursor behind them; an
-- upload has sixteen attempts as in the code; `fill` has fuel for the size of a slot, as each of its
-- turns adds a byte; `follow` has 257 turns, since the code refuses depth 256; `write_rest`,
-- `pax_records`, `decode_from` and `write_loop` have fuel for the bytes that are left, and any larger
-- fuel gives the same result; every other loop is a structural recursion.
--
-- Not modelled: file and socket access, processes, negative and fractional numbers in documents, the
-- streaming of the upload, the parser of native tar listings, and the scripts beside those above
-- (schedule, capture, restore drills, recovery sessions), which drive external programs.
pub mod Base
pub mod Profile
pub mod Json
pub mod Inventory
pub mod Contract
pub mod Upload
pub mod Retention
pub mod Tar
pub mod Actions
pub mod Spool
