-- ===== src/Docs/Langs.antt =====
-- The patterns of the highlighter (LANGS of docs/site/assets/docs.js): the text between the slashes
-- of each regular expression and its flag m; the flag g stands on all of them.
use orbital_viewer.Base.{Bool, true, false, Option, none, some, List, [], ◌∷◌, Text, codes}

pub record Pattern : Type 0 where
  pub source : Text
  pub multiline : Bool

pub record Spec : Type 0 where
  pub comment : Option Pattern
  pub string : Option Pattern
  pub keyword : Option Pattern
  pub number : Option Pattern

abbrev sh : Spec
sh = record {
  comment = some (record { source = codes "(^|\\s)#[^\\n]*"; multiline = true });
  string = some (record { source = codes "\"(?:[^\"\\\\]|\\\\.)*\"|'[^']*'"; multiline = false });
  keyword = some (record {
    source =
        codes
          "\\b(if|then|else|elif|fi|for|in|do|done|while|case|esac|function|exit|return|export|local|set|trap|sudo|cd)\\b";
    multiline = false;
  });
  number = none;
}

abbrev cpp : Spec
cpp = record {
  comment =
      some (record { source = codes "\\/\\/[^\\n]*|\\/\\*[\\s\\S]*?\\*\\/"; multiline = false });
  string = some (record {
    source = codes "\"(?:[^\"\\\\]|\\\\.)*\"|'(?:[^'\\\\]|\\\\.)'";
    multiline = false;
  });
  keyword = some (record {
    source =
        codes
          "\\b(auto|bool|break|case|catch|char|class|const|constexpr|continue|default|delete|double|else|enum|explicit|extern|false|float|for|friend|if|inline|int|long|mutable|namespace|new|noexcept|nullptr|operator|override|private|protected|public|return|short|signed|sizeof|static|struct|switch|template|this|throw|true|try|typedef|typename|uint8_t|uint16_t|uint32_t|uint64_t|int32_t|size_t|union|unsigned|using|virtual|void|volatile|while)\\b";
    multiline = false;
  });
  number = some (record {
    source = codes "\\b(0x[0-9a-fA-F]+|\\d+(\\.\\d+)?[uUlLfF]*)\\b";
    multiline = false;
  });
}

abbrev js : Spec
js = record {
  comment =
      some (record { source = codes "\\/\\/[^\\n]*|\\/\\*[\\s\\S]*?\\*\\/"; multiline = false });
  string = some (record {
    source = codes "\"(?:[^\"\\\\]|\\\\.)*\"|'(?:[^'\\\\]|\\\\.)*'|`(?:[^`\\\\]|\\\\.)*`";
    multiline = false;
  });
  keyword = some (record {
    source =
        codes
          "\\b(async|await|break|case|catch|class|const|continue|default|delete|do|else|export|extends|false|finally|for|function|if|import|in|instanceof|let|new|null|of|return|static|switch|this|throw|true|try|typeof|undefined|var|while|yield)\\b";
    multiline = false;
  });
  number =
      some (record { source = codes "\\b(0x[0-9a-fA-F]+|\\d+(\\.\\d+)?)\\b"; multiline = false });
}

abbrev toml : Spec
toml = record {
  comment = some (record { source = codes "#[^\\n]*"; multiline = false });
  string = some (record { source = codes "\"(?:[^\"\\\\]|\\\\.)*\""; multiline = false });
  keyword = some (record { source = codes "^\\s*\\[[^\\]]+\\]"; multiline = true });
  number = some (record { source = codes "\\b(\\d+(\\.\\d+)?|true|false)\\b"; multiline = false });
}

abbrev json : Spec
json = record {
  comment = none;
  string = some (record { source = codes "\"(?:[^\"\\\\]|\\\\.)*\""; multiline = false });
  keyword = none;
  number = some (record {
    source = codes "\\b(-?\\d+(\\.\\d+)?([eE][+-]?\\d+)?|true|false|null)\\b";
    multiline = false;
  });
}

abbrev csv : Spec
csv = record {
  comment = some (record { source = codes "#[^\\n]*"; multiline = false });
  string = none;
  keyword = none;
  number = none;
}

abbrev pub langs : List (Text × Spec)
langs =
    (codes "sh", sh)
    ∷ (codes "cpp", cpp)
    ∷ (codes "js", js)
    ∷ (codes "toml", toml)
    ∷ (codes "json", json)
    ∷ (codes "csv", csv)
    ∷ []
