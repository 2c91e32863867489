-- ===== src/Docs/Nav.antt =====
-- The pages of the documentation site (NAV and FLAT of docs/site/assets/docs.js).
use Prim.Native.String.{String}
use orbital_viewer.Base.{List, [], ◌∷◌, ◌++◌, Text, codes}

pub record Page : Type 0 where
  pub path : Text
  pub label : Text

pub record Section : Type 0 where
  pub title : Text
  pub items : List Page

abbrev page : String → String → Page
page p l = record { path = codes p; label = codes l }

abbrev pub nav : List Section
nav =
    record { title = codes "Start"; items = page "index" "Home" ∷ [] }
    ∷ record {
      title = codes "Overview";
      items =
          page "overview/overview" "Project Overview"
          ∷ page "overview/architecture" "Architecture at a Glance"
          ∷ page "overview/repository" "Repository & Technology"
          ∷ page "overview/faq" "FAQ"
          ∷ [];
    }
    ∷ record {
      title = codes "User Guide";
      items =
          page "user-guide/installation" "Installation"
          ∷ page "user-guide/configuration" "Configuration"
          ∷ page "user-guide/getting-started" "Getting Started"
          ∷ page "user-guide/usage" "Usage"
          ∷ page "user-guide/tutorials" "Tutorials"
          ∷ page "user-guide/troubleshooting" "Troubleshooting"
          ∷ page "user-guide/best-practices" "Best Practices"
          ∷ [];
    }
    ∷ record {
      title = codes "Developer Guide";
      items =
          page "developer-guide/repo-structure" "Repository Structure"
          ∷ page "developer-guide/architecture" "Architecture in Depth"
          ∷ page "developer-guide/build-system" "Build System"
          ∷ page "developer-guide/source-walkthrough" "Source Walkthrough"
          ∷ page "developer-guide/api" "API Documentation"
          ∷ page "developer-guide/extending" "Extending the Software"
          ∷ page "developer-guide/new-interface" "Adding a New Interface"
          ∷ page "developer-guide/testing" "Testing"
          ∷ page "developer-guide/debugging" "Debugging"
          ∷ page "developer-guide/coding-standards" "Coding Standards"
          ∷ page "developer-guide/release-process" "Release Process"
          ∷ [];
    }
    ∷ record {
      title = codes "Reference";
      items =
          page "reference/configuration" "Configuration Reference"
          ∷ page "reference/cli" "Command-Line Reference"
          ∷ page "reference/protocol-udp" "OLV1 UDP Protocol"
          ∷ page "reference/protocol-dis" "DIS Input Protocol"
          ∷ page "reference/protocol-olv2" "OLV2 UDP Protocol"
          ∷ page "reference/protocol-ws" "WebSocket Protocol"
          ∷ page "reference/file-formats" "File Formats"
          ∷ page "reference/glossary" "Glossary & Acronyms"
          ∷ [];
    }
    ∷ []

-- The items of all sections, in order.
unfoldable pub items_of : List Section → List Page
items_of [] = []
items_of (sec ∷ secs) = sec.items ++ items_of secs

unfoldable pub flat : List Page
unfolding items_of
flat = items_of nav

-- `href(path)`, below the body's `data-root`
unfoldable pub href : (root path : Text) → Text
href root path = root ++ codes "/" ++ path ++ codes ".html"
