-- ===== src/Domain/Category.antt =====
-- src/domain/mod.rs `FileCategory`. `str::to_lowercase` is the full Unicode mapping of the standard
-- library, and is a parameter.
pub mod Laws
mod Tests
use anti_entropator.Prelude.{
  ◌/◌, Bool, ◌||◌, Option, none, some, List, [], ◌∷◌, if◌then◌else◌, any, Text, ascii, starts_with,
  contains, is_one_of, trim_start_matches,
}

pub data FileCategory : Type 0 where
  image video audio document archive code font tabular other : FileCategory

-- `Display`; `tabular` is the source's `Data`.
unfoldable pub to_string : FileCategory → Text
to_string image = ascii "image"
to_string video = ascii "video"
to_string audio = ascii "audio"
to_string document = ascii "document"
to_string archive = ascii "archive"
to_string code = ascii "code"
to_string font = ascii "font"
to_string tabular = ascii "data"
to_string other = ascii "other"

abbrev contains_any : Text → List Text → Bool
contains_any s needles = any (contains s) needles

abbrev document_words : List Text
document_words =
    ascii "pdf"
    ∷ ascii "document"
    ∷ ascii "msword"
    ∷ ascii "spreadsheet"
    ∷ ascii "excel"
    ∷ ascii "presentation"
    ∷ ascii "powerpoint"
    ∷ ascii "epub"
    ∷ []

abbrev archive_words : List Text
archive_words =
    ascii "zip"
    ∷ ascii "tar"
    ∷ ascii "gzip"
    ∷ ascii "bzip"
    ∷ ascii "xz"
    ∷ ascii "rar"
    ∷ ascii "7z"
    ∷ ascii "compressed"
    ∷ ascii "archive"
    ∷ []

abbrev code_words : List Text
code_words =
    ascii "javascript"
    ∷ ascii "json"
    ∷ ascii "xml"
    ∷ ascii "html"
    ∷ ascii "css"
    ∷ ascii "python"
    ∷ ascii "rust"
    ∷ ascii "java"
    ∷ []

abbrev font_words : List Text
font_words = ascii "font" ∷ ascii "woff" ∷ ascii "ttf" ∷ ascii "otf" ∷ []

abbrev tabular_words : List Text
tabular_words = ascii "parquet" ∷ ascii "csv" ∷ ascii "sqlite" ∷ ascii "sql" ∷ []

-- The chain of tests on the lower-case MIME type.
unfoldable pub mime_category : Text → FileCategory
mime_category mime_lower =
    if starts_with mime_lower (ascii "image/")
    then image
    else if starts_with mime_lower (ascii "video/")
    then video
    else if starts_with mime_lower (ascii "audio/")
    then audio
    else if starts_with mime_lower (ascii "text/") || contains_any mime_lower document_words
    then document
    else if contains_any mime_lower archive_words
    then archive
    else if contains_any mime_lower code_words
    then code
    else if contains_any mime_lower font_words
    then font
    else if contains_any mime_lower tabular_words
    then tabular
    else other

abbrev pub image_extensions : List Text
image_extensions =
    ascii "jpg"
    ∷ ascii "jpeg"
    ∷ ascii "png"
    ∷ ascii "gif"
    ∷ ascii "webp"
    ∷ ascii "svg"
    ∷ ascii "bmp"
    ∷ ascii "ico"
    ∷ ascii "tiff"
    ∷ ascii "heic"
    ∷ ascii "heif"
    ∷ ascii "raw"
    ∷ ascii "cr2"
    ∷ ascii "nef"
    ∷ ascii "eps"
    ∷ []

abbrev pub video_extensions : List Text
video_extensions =
    ascii "mp4"
    ∷ ascii "mkv"
    ∷ ascii "avi"
    ∷ ascii "mov"
    ∷ ascii "wmv"
    ∷ ascii "flv"
    ∷ ascii "webm"
    ∷ ascii "m4v"
    ∷ ascii "mpg"
    ∷ ascii "mpeg"
    ∷ ascii "3gp"
    ∷ []

abbrev pub audio_extensions : List Text
audio_extensions =
    ascii "mp3"
    ∷ ascii "wav"
    ∷ ascii "flac"
    ∷ ascii "aac"
    ∷ ascii "ogg"
    ∷ ascii "wma"
    ∷ ascii "m4a"
    ∷ ascii "opus"
    ∷ ascii "aiff"
    ∷ []

abbrev pub document_extensions : List Text
document_extensions =
    ascii "pdf"
    ∷ ascii "doc"
    ∷ ascii "docx"
    ∷ ascii "xls"
    ∷ ascii "xlsx"
    ∷ ascii "xlsm"
    ∷ ascii "ppt"
    ∷ ascii "pptx"
    ∷ ascii "odt"
    ∷ ascii "ods"
    ∷ ascii "odp"
    ∷ ascii "rtf"
    ∷ ascii "txt"
    ∷ ascii "md"
    ∷ ascii "epub"
    ∷ ascii "mobi"
    ∷ []

abbrev pub archive_extensions : List Text
archive_extensions =
    ascii "zip"
    ∷ ascii "tar"
    ∷ ascii "gz"
    ∷ ascii "bz2"
    ∷ ascii "xz"
    ∷ ascii "7z"
    ∷ ascii "rar"
    ∷ ascii "dmg"
    ∷ ascii "iso"
    ∷ ascii "pkg"
    ∷ ascii "deb"
    ∷ ascii "rpm"
    ∷ []

abbrev pub code_extensions : List Text
code_extensions =
    ascii "rs"
    ∷ ascii "py"
    ∷ ascii "js"
    ∷ ascii "ts"
    ∷ ascii "jsx"
    ∷ ascii "tsx"
    ∷ ascii "java"
    ∷ ascii "c"
    ∷ ascii "cpp"
    ∷ ascii "h"
    ∷ ascii "hpp"
    ∷ ascii "go"
    ∷ ascii "rb"
    ∷ ascii "php"
    ∷ ascii "swift"
    ∷ ascii "kt"
    ∷ ascii "scala"
    ∷ ascii "html"
    ∷ ascii "css"
    ∷ ascii "scss"
    ∷ ascii "sass"
    ∷ ascii "less"
    ∷ ascii "json"
    ∷ ascii "yaml"
    ∷ ascii "yml"
    ∷ ascii "toml"
    ∷ ascii "xml"
    ∷ ascii "sh"
    ∷ ascii "bash"
    ∷ ascii "zsh"
    ∷ ascii "sql"
    ∷ []

abbrev pub font_extensions : List Text
font_extensions = ascii "ttf" ∷ ascii "otf" ∷ ascii "woff" ∷ ascii "woff2" ∷ ascii "eot" ∷ []

abbrev pub tabular_extensions : List Text
tabular_extensions =
    ascii "csv"
    ∷ ascii "parquet"
    ∷ ascii "avro"
    ∷ ascii "orc"
    ∷ ascii "sqlite"
    ∷ ascii "db"
    ∷ ascii "arrow"
    ∷ []

-- The `match` on the cleaned extension.
unfoldable pub extension_category : Text → FileCategory
extension_category ext_clean =
    if is_one_of ext_clean image_extensions
    then image
    else if is_one_of ext_clean video_extensions
    then video
    else if is_one_of ext_clean audio_extensions
    then audio
    else if is_one_of ext_clean document_extensions
    then document
    else if is_one_of ext_clean archive_extensions
    then archive
    else if is_one_of ext_clean code_extensions
    then code
    else if is_one_of ext_clean font_extensions
    then font
    else if is_one_of ext_clean tabular_extensions
    then tabular
    else other

module _ (to_lowercase : Text → Text) where
  unfoldable pub from_mime : Text → FileCategory
  from_mime mime = mime_category (to_lowercase mime)

  unfoldable pub from_extension : Text → FileCategory
  from_extension ext = extension_category (trim_start_matches b'.' (to_lowercase ext))

  unfoldable pub classify : Text → Option Text → FileCategory
  classify extension (some mime) = from_mime mime
  classify extension none = from_extension extension
