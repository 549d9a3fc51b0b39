-- ===== src/Lib.antt =====
-- A model of the build-time programs of rules_mkosi, Bazel rules that build bootable Linux images
-- with mkosi.
--
-- Prelude: shared types, lists, texts as code points (texts are ASCII where a program asks for
-- digits, letters or whitespace), byte strings, dictionaries, and `Outcome`, the result of a
-- function that may raise an exception.
--
-- Debian models mkosi/debian/generate_lock.py, which resolves a package specification against the
-- package indexes of a Debian snapshot. Debian/Version is `compare_versions` with its helpers; an
-- index into a text is the rest of the text. Debian/Package and Debian/Universe are the records
-- `Relation`, `Package` and `Universe` with `candidates`. Debian/Relations parses dependency fields,
-- with the pattern `_RELATION` written out, Debian/Records the packages of an index, and
-- Debian/Release the Release file, with the fetcher, SHA-256 and UTF-8 as parameters. Debian/Closure
-- is `_Closure` and `resolve`; its loop has as much fuel as the universe has names, since a name is
-- queued once. Debian/Lock has the records of specifications and locks, Debian/Specification is
-- `load_specification` on decoded JSON, and Debian/Generate is `generate`: it fetches, resolves and
-- locks; LZMA and the digest of the specification are parameters too.
--
-- Gpt models mkosi/private/partition_metadata.py and mkosi/private/gpt_partitions.py, which validate
-- both GPT copies of a disk image and hash it canonically. An image is its bytes. CRC-32 and SHA-256
-- are parameters. Gpt/Header is `_read_exact` to `_validated_gpt`, Gpt/Partitions is
-- `_validate_ab_slots` to `project_image`, and Gpt/Canonical is `_canonical_header` to
-- `canonical_image_sha256`, whose chunked hashing has the number of bytes as its fuel.
--
-- Verity models mkosi/private/verity_metadata.py, which recomputes a dm-verity hash tree from the
-- root artifact. A spool of digests is the bytes that it holds; the hash functions of hashlib are
-- parameters, with the size of their digests. Verity/Geometry is `_slot_size` and
-- `_read_superblock`, whose bit operations have their operand as fuel; Verity/Tree is
-- `_salted_digest` to `_verify_tree`, where the limit of 64 levels bounds the loop of
-- `_level_counts`; Verity/Project is `_root_partitions` to `project`, of parsed partitions.
--
-- Control models mkosi/private/debian_control.py, the parser of Debian control data: the variables
-- of its loop are the record `Parser`, and a round of the loop is `read_line`.
--
-- ImageVersion models mkosi/private/image_version.py: the validation of a version that is read from
-- a file, and of the slot labels that are made of it.
--
-- Esp models mkosi/private/esp_manifest/rules_mkosi_esp_manifest.py, which reads files of the EFI
-- system partition of a disk image. Esp/Image finds the partition, Esp/Geometry is `_geometry` and
-- the opening of a volume, Esp/Names the short and long names, Esp/Volume the cluster chains and
-- directories, Esp/Walk `lookup`, `walk` and the functions on images. A chain has one more than the
-- clusters as its fuel, and the walk two more. CRC-32, the code page 437 and Python's case mappings
-- are parameters.
--
-- Runner models mkosi/private/mkosi_runner: Runner/Options is mkosi_options.py, which finds options of
-- mkosi in its arguments, and Runner/CommandLine is command_line.py, the preamble and the rewriting of
-- the arguments. The table of options, the negative number rule of argparse and the working directory
-- are parameters. The scan has the number of the arguments as its fuel.
--
-- Extract models mkosi/debian/extract_tree.py: Extract/Member names and indexes the members of an
-- archive, Extract/Symlinks resolves the path of a symbolic link, and Extract/Hardlinks the hard
-- links. What tarfile tells of a member is a record; the files and links that are made are not
-- modelled. A symbolic link has one more than the symbolic links as its fuel, for it follows none
-- twice, and a hard link one more than the hard links.
--
-- Snapshot models mkosi/private/debian_snapshot.py, which stages an authenticated snapshot of Debian
-- indexes and packages. A file argument is its bytes, the output directory a dictionary from paths to
-- bytes. Snapshot/Indexes is `_verify_digest` to `_verify_input_digests` on the arguments,
-- Snapshot/Release the checksums of the Release file, Snapshot/Packages the locked packages,
-- Snapshot/Metadata what the indexes say of them, and Snapshot/Stage the staging. SHA-256, UTF-8, LZMA
-- and the signature verification, which runs a process, are parameters; file modes and time stamps are
-- not modelled, nor is the file of the verified payload, which is removed at the end.
--
-- Prelude/Paths has the functions of Python's posixpath that the programs call.
--
-- Not modelled: command lines, downloads, decompression and JSON text, and the texts of error
-- messages. Of the other programs of the repository, these mostly run processes, make system calls or
-- move files: mkosi/private/run_mkosi.py with the sandboxes of mkosi/private/mkosi_runner,
-- mkosi/private/boot_test.py, mkosi/private/esp_files.py, mkosi/private/stage_inputs.py,
-- mkosi/private/sysupdate.py, mkosi/debian/debian_launcher.py, mkosi/debian/package_archive.py and the
-- native helpers. These check data, and are outside of this library, which follows the path from a
-- package specification to a disk image: the Secure Boot programs and the manifests of
-- mkosi/private, and the validators of ci. The Bazel rules are Starlark, which Bazel evaluates.
pub mod Control
pub mod Debian
pub mod Esp
pub mod Extract
pub mod Gpt
pub mod ImageVersion
pub mod Prelude
pub mod Runner
pub mod Snapshot
pub mod Tests
pub mod Verity
