-- ===== src/Lib.antt =====
-- A model of BlindAge: privacy-preserving age tokens, from the registry of trusted issuers to the
-- site that verifies a presentation. Paths are from the repository's root.
--
-- An issuer enrolls a user by a date of birth, proved by OIDC, and signs tokens for the claims that
-- the date makes eligible, blindly where the key is an RSABSSA key. A wallet keeps the tokens and
-- spends one for each challenge of a site. The site verifies the token under a key of the signed
-- registry, which binds each key to one claim, level and epoch. The registry's hash is anchored on a
-- chain, which the mirror, the loader and the auditor compare with what they serve or read.
--
-- Parts, and where they are:
-- - Base: Boolean tests, equality as an instance, integers, lists, Python's dict as an association
--   list, results of code that raises, texts and their UTF-8.
-- - Canonical: blindage/canonical.py. Schemas: blindage/schemas/.
-- - Crypto: blindage/crypto/. Base64 (interface.py), Verifiers (factory.py, ed25519.py, mock.py,
--   rsabssa.py), Octets and Rsabssa (rsabssa.py), and Bbs (bbs.py): its children Encoding, Blocks,
--   Sign, Proof, Generate and Check hold the code, Curve the record of what py_ecc provides, and
--   Group the laws of that curve. Primitives is the record of what is taken from the package
--   cryptography, from hashlib and from hmac.
-- - Registry: blindage/registry/. Store (store.py: the checks of `from_dict` and the lookups),
--   Signing (signing.py), Load (`TrustRegistry.load`).
-- - Verifier: blindage/verifier/. Replay (replay_cache.py), Challenge (challenge.py), Session and
--   Token (`BlindAgeVerifier.verify` in verify.py, as steps that set flags, change the session and
--   may end the call by a denial or by an exception), Credential (`verify_vc_presentation`, with
--   the test of a BBS proof as a parameter).
-- - Issuer: blindage/issuer/. Eligibility, Storage, Keys, App (the handlers `enroll` and `issue`;
--   Credential: `issue_credential`; Metadata: `well_known`; Callback: the pages and
--   `oidc_callback`) and Proofing (OIDC sessions, ID tokens, the redirect and the callback).
-- - Wallet: blindage/wallet/client.py (Client: `mint`; Spending: `build_presentation`; Proving:
--   `vc_get` and `vc_prove`) and wallet/vault.py (Vault: `load` and `save` of the encrypted file).
-- - Site: blindage/example_site/app.py, the routes around the verifier. A `SiteReply` is a response
--   with its status, or an exception that the route lets through.
-- - Chain: registry_chain/anchor.py (Cache), registry_chain/publish.py (Publish), registry_mirror/
--   app.py (Mirror), transparency/auditor.py (Audit, and Log for `fetch_history`) and
--   transparency/app.py (Log), under blindage/. DevIdp: blindage/dev_idp/app.py.
-- - Samples and the modules named Tests: concrete inputs.
--
-- Times are natural numbers of microseconds, and every reading of the clock is an argument; so are
-- UUIDs and random octets. The times of an issuer's key may be naive, which Python does not compare
-- with the clock; those of the challenge that a wallet reads are taken to be aware. Code that raises returns a `Result`, with one constructor for each
-- message that the code tells apart. Tables of sqlite and dicts are association lists or lists of
-- keys. What third-party code does (hashes, MACs, signatures, DER, JWT, HTTP, files, the chain) is
-- a parameter. The loop of `blind` that draws until a factor is coprime runs over a list of draws,
-- and has no result where no draw ends it; `bit_length` has its argument as fuel, which halving
-- uses up last; the greatest common divisor is Euclid's, with one more than its second argument as
-- fuel, since that argument gets smaller in each round; the modular inverse is searched downwards
-- from a bound that it does not exceed. The generators and the scalars of BBS are made by recursion
-- on their number. Points of the curve are what their coordinates stand for.
--
-- Not modelled: key generation for Ed25519, ML-DSA and RSABSSA, the signing side of the registry,
-- deploying the contracts, the provider's discovery and its caches, the wallet's command line, HTML
-- texts, the scripts, the browser extension and the contracts. `verify_vc_presentation` takes
-- `bbs_proof_verify` as a parameter.
pub mod Base
pub mod Canonical
pub mod Chain
pub mod Crypto
pub mod DevIdp
pub mod Issuer
pub mod Registry
pub mod Samples
pub mod Schemas
pub mod Site
pub mod Verifier
pub mod Wallet
