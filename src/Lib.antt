-- ===== src/Lib.antt =====
-- karapace: a schema registry on top of a Kafka topic.
--
-- The registry (src/karapace/core/schema_registry.py) decides on requests and sends messages to the
-- topic. The reader (src/karapace/core/schema_reader.py) takes the messages back, those of other
-- nodes too, and is the only one that changes the versions of the database
-- (src/karapace/core/in_memory_database.py). Both share the database and the global compatibility.
--
-- Files and code:
--   Version, Version/Versioner   `Version` of core/typing.py, `Versioner` of core/schema_models.py
--   Schema                       core/schema_type.py, core/schema_references.py, and `TypedSchema` and
--                                `SchemaVersion` of core/schema_models.py
--   Outcome                      the exceptions of core/errors.py, as results
--   Database/State, /Queries, /Changes
--                                the fields, the reading and the writing methods of `InMemoryDatabase`
--   Compatibility                core/compatibility/__init__.py and schema_compatibility.py
--   Resolve                      `_resolve_reference` and `resolve_references` of the reader, and
--                                `resolve_and_parse` of the registry
--   Messages                     the messages that `send_schema_message` and its siblings build
--   Reader/Handlers              `handle_msg` of `KafkaSchemaReader` and the handlers that it calls
--   Reader/Consume               `consume_messages`, `handle_messages` and the ready flag of it
--   Registry/State, /Reads, /Writes, /Deletes
--                                `KarapaceSchemaRegistry`
--   Reader/View                  what the messages say about the versions, without a database
--   Protobuf/Varint              core/protobuf/encoding_variants.py
--   Protobuf/Text                the methods of Python's `str` that the Protobuf code calls
--   Protobuf/Elements            the elements of a parsed Protobuf file, core/protobuf/*_element.py
--   Protobuf/ProtoType           core/protobuf/proto_type.py
--   Protobuf/Comparison          core/protobuf/compare_result.py and the state of a comparison
--   Protobuf/TypeStorage         core/protobuf/compare_type_storage.py
--   Protobuf/Compare, /Fields, /Messages
--                                `compare` of the enums, of the fields, and of the one-ofs and messages
--   Protobuf/Check               `compare` of a Protobuf file, and `check_protobuf_schema_compatibility`
--                                of core/compatibility/protobuf/checks.py
--   JsonSchema/Types             core/compatibility/jsonschema/types.py
--   JsonSchema/Utils, /Constraints, /Normalize
--                                core/compatibility/jsonschema/utils.py
--   JsonSchema/Assertions, /Scalars, /Arrays, /Objects, /Subschemas, /Recursion
--                                the checks of core/compatibility/jsonschema/checks.py: of a keyword, of
--                                numbers, strings and enumerations, and so on up to `compatibility_rec`
--   JsonSchema/Json, /Steps      JSON values with Python's tests on them, and the statements of the checks
--   Election                     `_on_join_complete` and `are_we_master` of
--                                core/coordinator/schema_coordinator.py
--   Offsets                      core/offset_watcher.py
--   KeyFormat                    core/key_format.py
--   Auth                         core/auth.py
-- (all under src/karapace.) Prelude and Dict hold what they share; the other files are proofs, named
-- for what they prove; Tests holds concrete runs.
--
-- State and steps. A dictionary is a list of entries in the order of insertion, so `list(d)` and
-- `values()` come as in Python. A method is a function from the state to the state, with a result where
-- it may raise; the handlers of the reader and the actions of the registry give back the state beside
-- the error as well. Locks are left out: each method under `schema_lock` or `schema_lock_thread` is one
-- step. What the registry sends is a list of messages, which a reader handles later.
--
-- Parameters, not modelled: the SHA-1 of a fingerprint, the parsers and normal texts of Avro, JSON
-- Schema and Protobuf, the checkers of the three schema types, the avro package's `merge`, JSON
-- decoding, the hashes of passwords and the match of regular expressions. The Kafka client is the
-- messages and the end offset that it gives.
--
-- Fuel. References between schemas are followed on fuel, where the code recurses on Python's stack;
-- running out is the error `recursion_error`, as Python's RecursionError. Fuel above the depth of what
-- the references name is enough (Resolve/Depth). The other theorems take the resolution of the
-- references as a hypothesis or hold for every outcome of it.
--
-- The comparison of Protobuf elements recurses through the types of fields: `compare_element` counts the
-- calls on fuel. A message that is being compared is locked, and more fuel than there are types in the
-- files of the writer is enough (Protobuf/Terminates). `get2` has fuel for each character of a name, which
-- is enough too (Protobuf/ProtoType/Returns). Two objects of the classes `Location` and `OptionElement`
-- are equal if they are one object: they are numbers. A Python set of keys is enumerated in the order of
-- its dict. `compare` of an element is passed on as a function `visit` to what calls it.
--
-- A check of JSON Schema builds its result with statements, functions from the local `result` to the next
-- one or to an error; `merge` of avro, the length of networkx's matching and `re.match` are fields of
-- `Packages`. The functions that recurse take `compatibility_rec` as `visit`, and `compatibility_rec` counts
-- its calls on fuel: more than the weight of both schemas is enough (JsonSchema/Terminates). The inlining of
-- references by `normalize_schema`, with the resolver of jsonschema in a `Validator`, is on fuel too. A result holds
-- the incompatibilities and the locations, without the texts for humans. JSON numbers are integers.
--
-- Not modelled: the HTTP API, the REST proxy, the Kafka protocol of the election, the choice of the
-- master among the members and forwarding to it, the loop of the reader's thread, metrics, logs and
-- configuration; they are I/O around this core, but for the choice. The parser and normalizer of Protobuf
-- text are code of the repository that is not modelled; the registry takes the checkers as parameters.
pub mod Prelude
pub mod Dict
pub mod Election
pub mod Version
pub mod Outcome
pub mod Schema
pub mod Database
pub mod Compatibility
pub mod Resolve
pub mod Messages
pub mod Reader
pub mod Registry
pub mod Offsets
pub mod Protobuf
pub mod Auth
pub mod JsonSchema
pub mod KeyFormat
pub mod Tests
