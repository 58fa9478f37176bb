-- ===== src/Host.antt =====
-- What client/src/storage/JsonLocalStore.cpp takes from Qt and OpenSSL: the text forms of times
-- and bytes, the cipher and its random bytes, and the answers of the file system. None of this
-- code is part of the repository: it is a parameter of the model.
use epic_kfc.Base.{ℕ, QString, Bool, Option, some, List, ◌≡◌}
use epic_kfc.Models.{QDateTime}

abbrev pub QByteArray : Type 0
QByteArray = List ℕ

pub record Host : Type 0 where
  -- toUTC().toString(Qt::ISODateWithMs) and fromString
  pub print_time : QDateTime → QString
  pub read_time : QString → QDateTime
  -- QString::toUtf8, QString::fromUtf8, and the two helpers around base64
  pub to_utf8 : QString → QByteArray
  pub from_utf8 : QByteArray → QString
  pub bytes_to_base64 : QByteArray → QString
  pub base64_to_bytes : QString → QByteArray
  -- RAND_bytes: the bytes of a draw, for its number and the size that is asked for
  pub random : ℕ → ℕ → QByteArray
  -- PKCS5_PBKDF2_HMAC with the constants of the source
  pub derive_storage_key : QString → QByteArray → Option QByteArray
  -- AES-256-GCM: key, nonce, associated data, text to a text and a tag, and back
  pub encrypt : QByteArray → QByteArray → QByteArray → QByteArray → Option (QByteArray × QByteArray)
  pub decrypt : QByteArray → QByteArray → QByteArray → QByteArray → QByteArray → Option QByteArray
  -- QFile::open for reading and for writing, and a directory that exists or can be made
  pub can_read : QString → Bool
  pub can_write : QString → Bool
  pub directory_ready : QString → Bool
  -- QFileInfo(path).absoluteDir().path()
  pub directory : QString → QString
  -- QFileInfo(path).absoluteDir().filePath(name)
  pub sibling : QString → QString → QString

-- What the documentation promises of these.
pub record HostLaws (host : Host) : Type 0 where
  pub read_print : (t : QDateTime) → host.read_time (host.print_time t) ≡ t
  pub utf8 : (s : QString) → host.from_utf8 (host.to_utf8 s) ≡ s
  pub base64 : (b : QByteArray) → host.base64_to_bytes (host.bytes_to_base64 b) ≡ b
  -- what was encrypted is decrypted with the same key, nonce and associated data
  pub decrypt_encrypt :
      (key iv aad plaintext ciphertext tag : QByteArray)
      → host.encrypt key iv aad plaintext ≡ some (ciphertext, tag)
      → host.decrypt key iv aad ciphertext tag ≡ some plaintext
