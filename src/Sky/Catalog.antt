-- ===== src/Sky/Catalog.antt =====
-- The built-in catalogue of bright stars (frontend/js/star_catalog.js), in the order of the source.
-- Angles are in degrees. A number is kept as the decimal that the source writes, and `decimal_value`
-- is the double that it denotes.
use Prim.Native.String.{String}
use orbital_viewer.Num.{Num, to_double}
use orbital_viewer.Base.{ℕ, Bool, true, false, List, [], ◌∷◌, ◌++◌, Text, codes}

-- ± digits / 10 ^ places
pub record Decimal : Type 0 where
  pub neg : Bool
  pub digits : ℕ
  pub places : ℕ

unfoldable pub decimal_value : Decimal → Num
unfolding to_double
decimal_value d = to_double d.neg d.digits d.places

pub record Star : Type 0 where
  pub ra : Decimal
  pub dec : Decimal
  pub mag : Decimal
  pub name : Text

abbrev plus : (digits places : ℕ) → Decimal
plus n f = record { neg = false; digits = n; places = f }

abbrev minus : (digits places : ℕ) → Decimal
minus n f = record { neg = true; digits = n; places = f }

abbrev star : Decimal → Decimal → Decimal → String → Star
star a d m s = record { ra = a; dec = d; mag = m; name = codes s }

-- The catalogue in two parts.
abbrev first_stars : List Star
first_stars =
    star (plus 1012871 4) (minus 167161 4) (minus 146 2) "Sirius"
    ∷ star (plus 959880 4) (minus 526956 4) (minus 74 2) "Canopus"
    ∷ star (plus 2199021 4) (minus 608340 4) (minus 27 2) "Rigil Kentaurus"
    ∷ star (plus 2139154 4) (plus 191825 4) (minus 5 2) "Arcturus"
    ∷ star (plus 2792347 4) (plus 387837 4) (plus 3 2) "Vega"
    ∷ star (plus 791723 4) (plus 459980 4) (plus 8 2) "Capella"
    ∷ star (plus 786345 4) (minus 82016 4) (plus 18 2) "Rigel"
    ∷ star (plus 1148255 4) (plus 52250 4) (plus 34 2) "Procyon"
    ∷ star (plus 887929 4) (plus 74071 4) (plus 42 2) "Betelgeuse"
    ∷ star (plus 244285 4) (minus 572368 4) (plus 46 2) "Achernar"
    ∷ star (plus 2109558 4) (minus 603730 4) (plus 61 2) "Hadar"
    ∷ star (plus 2976958 4) (plus 88683 4) (plus 76 2) "Altair"
    ∷ star (plus 1866496 4) (minus 630991 4) (plus 77 2) "Acrux"
    ∷ star (plus 689802 4) (plus 165093 4) (plus 85 2) "Aldebaran"
    ∷ star (plus 2012983 4) (minus 111614 4) (plus 97 2) "Spica"
    ∷ star (plus 2473521 4) (minus 264319 4) (plus 106 2) "Antares"
    ∷ star (plus 1163289 4) (plus 280262 4) (plus 114 2) "Pollux"
    ∷ star (plus 3444127 4) (minus 296222 4) (plus 116 2) "Fomalhaut"
    ∷ star (plus 3103580 4) (plus 452803 4) (plus 125 2) "Deneb"
    ∷ star (plus 1919304 4) (minus 596889 4) (plus 125 2) "Mimosa"
    ∷ star (plus 1520930 4) (plus 119672 4) (plus 135 2) "Regulus"
    ∷ star (plus 1046563 4) (minus 289722 4) (plus 150 2) "Adhara"
    ∷ star (plus 1136495 4) (plus 318883 4) (plus 158 2) "Castor"
    ∷ star (plus 1877915 4) (minus 571133 4) (plus 163 2) "Gacrux"
    ∷ star (plus 2634022 4) (minus 371038 4) (plus 162 2) "Shaula"
    ∷ star (plus 812828 4) (plus 63497 4) (plus 164 2) "Bellatrix"
    ∷ star (plus 815730 4) (plus 286075 4) (plus 165 2) "Elnath"
    ∷ star (plus 1383010 4) (minus 697172 4) (plus 168 2) "Miaplacidus"
    ∷ star (plus 840534 4) (minus 12019 4) (plus 169 2) "Alnilam"
    ∷ star (plus 3320584 4) (minus 469611 4) (plus 173 2) "Alnair"
    ∷ star (plus 851897 4) (minus 19426 4) (plus 174 2) "Alnitak"
    ∷ star (plus 1935073 4) (plus 559598 4) (plus 177 2) "Alioth"
    ∷ star (plus 1223830 4) (minus 473365 4) (plus 178 2) "Regor"
    ∷ star (plus 510808 4) (plus 498612 4) (plus 179 2) "Mirfak"
    ∷ star (plus 1659319 4) (plus 617511 4) (plus 179 2) "Dubhe"
    ∷ star (plus 1070979 4) (minus 263932 4) (plus 183 2) "Wezen"
    ∷ star (plus 2760430 4) (minus 343846 4) (plus 185 2) "Kaus Australis"
    ∷ star (plus 2068852 4) (plus 493133 4) (plus 186 2) "Alkaid"
    ∷ star (plus 2643297 4) (minus 429978 4) (plus 186 2) "Sargas"
    ∷ star (plus 1256285 4) (minus 595095 4) (plus 186 2) "Avior"
    ∷ star (plus 898822 4) (plus 449474 4) (plus 190 2) "Menkalinan"
    ∷ star (plus 2521662 4) (minus 690277 4) (plus 191 2) "Atria"
    ∷ star (plus 994279 4) (plus 163993 4) (plus 193 2) "Alhena"
    ∷ star (plus 3064120 4) (minus 567350 4) (plus 194 2) "Peacock"
    ∷ star (plus 1311758 4) (minus 547086 4) (plus 196 2) "Alsephina"
    ∷ star (plus 956749 4) (minus 179559 4) (plus 198 2) "Mirzam"
    ∷ star (plus 1418968 4) (minus 86586 4) (plus 198 2) "Alphard"
    ∷ star (plus 379529 4) (plus 892641 4) (plus 198 2) "Polaris"
    ∷ star (plus 317934 4) (plus 234624 4) (plus 200 2) "Hamal"
    ∷ star (plus 1549931 4) (plus 198415 4) (plus 201 2) "Algieba"
    ∷ star (plus 108974 4) (minus 179866 4) (plus 204 2) "Diphda"
    ∷ star (plus 2009814 4) (plus 549254 4) (plus 204 2) "Mizar"
    ∷ star (plus 2838163 4) (minus 262967 4) (plus 205 2) "Nunki"
    ∷ star (plus 2109581 4) (minus 363700 4) (plus 206 2) "Menkent"
    ∷ star (plus 20969 4) (plus 290904 4) (plus 206 2) "Alpheratz"
    ∷ star (plus 869391 4) (minus 96696 4) (plus 206 2) "Saiph"
    ∷ star (plus 2226764 4) (plus 741555 4) (plus 207 2) "Kochab"
    ∷ star (plus 2637328 4) (plus 125601 4) (plus 208 2) "Rasalhague"
    ∷ star (plus 470422 4) (plus 409556 4) (plus 212 2) "Algol"
    ∷ star (plus 309748 4) (plus 423297 4) (plus 210 2) "Almach"
    ∷ star (plus 1772649 4) (plus 145721 4) (plus 214 2) "Denebola"
    ∷ star (plus 3406667 4) (minus 468846 4) (plus 211 2) "Tiaki"
    ∷ star (plus 1892966 4) (minus 489598 4) (plus 217 2) "Muhlifain"
    ∷ star (plus 1208961 4) (minus 400032 4) (plus 221 2) "Naos"
    ∷ star (plus 1392725 4) (minus 592750 4) (plus 221 2) "Aspidiske"
    ∷ star (plus 2336717 4) (plus 267147 4) (plus 223 2) "Alphecca"
    ∷ star (plus 1369990 4) (minus 434326 4) (plus 221 2) "Suhail"
    ∷ star (plus 174330 4) (plus 356206 4) (plus 207 2) "Mirach"
    ∷ star (plus 3055571 4) (plus 402567 4) (plus 223 2) "Sadr"
    ∷ star (plus 2691516 4) (plus 514889 4) (plus 223 2) "Eltanin"
    ∷ star (plus 101268 4) (plus 565373 4) (plus 224 2) "Schedar"
    ∷ star (plus 830016 4) (minus 2991 4) (plus 225 2) "Mintaka"
    ∷ star (plus 22945 4) (plus 591498 4) (plus 227 2) "Caph"
    ∷ star (plus 2400834 4) (minus 226217 4) (plus 229 2) "Dschubba"
    ∷ star (plus 2534644 4) (minus 342933 4) (plus 229 2) "Larawag"
    ∷ star (plus 65708 4) (minus 423061 4) (plus 240 2) "Ankaa"
    ∷ star (plus 3260463 4) (plus 98750 4) (plus 240 2) "Enif"
    ∷ star (plus 3459436 4) (plus 280828 4) (plus 242 2) "Scheat"
    ∷ star (plus 2586618 4) (minus 157249 4) (plus 243 2) "Sabik"
    ∷ star (plus 1784577 4) (plus 536948 4) (plus 244 2) "Phecda"
    ∷ star (plus 1117873 4) (minus 293031 4) (plus 245 2) "Aludra"
    ∷ star (plus 1405284 4) (minus 550106 4) (plus 247 2) "Markeb"
    ∷ star (plus 3196449 4) (plus 625854 4) (plus 244 2) "Alderamin"
    ∷ star (plus 3461900 4) (plus 152053 4) (plus 249 2) "Markab"
    ∷ star (plus 3052569 4) (plus 339702 4) (plus 246 2) "Aljanah"
    ∷ star (plus 2413592 4) (minus 198054 4) (plus 256 2) "Acrab"
    ∷ star (plus 1839516 4) (minus 175419 4) (plus 259 2) "Gienah"
    ∷ star (plus 1685270 4) (plus 205237 4) (plus 256 2) "Zosma"
    ∷ star (plus 1654603 4) (plus 563824 4) (plus 237 2) "Merak"
    ∷ star (plus 2626082 4) (plus 523013 4) (plus 279 2) "Rastaban"
    ∷ star (plus 1885966 4) (minus 233964 4) (plus 265 2) "Kraz"
    ∷ star (plus 2714520 4) (minus 304241 4) (plus 298 2) "Alnasl"
    ∷ star (plus 2658682 4) (plus 45674 4) (plus 276 2) "Cebalrai"
    ∷ star (plus 2400994 4) (minus 36944 4) (plus 273 2) "Yed Prior"
    ∷ star (plus 214538 4) (plus 602352 4) (plus 268 2) "Ruchbah"
    ∷ star (plus 2744067 4) (minus 254217 4) (plus 282 2) "Kaus Borealis"
    ∷ star (plus 2227196 4) (minus 160418 4) (plus 275 2) "Zubenelgenubi"
    ∷ star (plus 2292518 4) (minus 93827 4) (plus 261 2) "Zubeneschamali"
    ∷ star (plus 2360669 4) (plus 64256 4) (plus 263 2) "Unukalhai"
    ∷ star (plus 286600 4) (plus 208082 4) (plus 264 2) "Sheratan"
    ∷ star (plus 1542765 4) (plus 414995 4) (plus 305 2) "Tania Australis"
    ∷ star (plus 1838565 4) (plus 570326 4) (plus 332 2) "Megrez"
    ∷ star (plus 2301819 4) (plus 718340 4) (plus 305 2) "Pherkad"
    ∷ star (plus 568712 4) (plus 241050 4) (plus 287 2) "Alcyone"
    ∷ star (plus 572879 4) (plus 240533 4) (plus 362 2) "Atlas"
    ∷ star (plus 562179 4) (plus 241133 4) (plus 370 2) "Electra"
    ∷ star (plus 564544 4) (plus 243678 4) (plus 386 2) "Maia"
    ∷ star (plus 141772 4) (plus 607167 4) (plus 247 2) "Gamma Cassiopeiae"
    ∷ star (plus 285988 4) (plus 636701 4) (plus 335 2) "Segin"
    ∷ star (plus 837842 4) (plus 99342 4) (plus 339 2) "Meissa"
    ∷ star (plus 838583 4) (minus 59099 4) (plus 277 2) "Hatysa"
    ∷ star (plus 1837863 4) (minus 587489 4) (plus 279 2) "Delta Crucis"
    ∷ star (plus 1831596 4) (minus 604011 4) (plus 359 2) "Epsilon Crucis"
    ∷ star (plus 2401268 4) (minus 261141 4) (plus 289 2) "Pi Scorpii"
    ∷ star (plus 2445842 4) (minus 255928 4) (plus 289 2) "Sigma Scorpii"
    ∷ star (plus 2489698 4) (minus 282162 4) (plus 282 2) "Tau Scorpii"
    ∷ star (plus 2668958 4) (minus 401275 4) (plus 303 2) "Iota1 Scorpii"
    ∷ []

abbrev other_stars : List Star
other_stars =
    star (plus 2529667 4) (minus 380473 4) (plus 300 2) "Mu1 Scorpii"
    ∷ star (plus 2542857 4) (minus 423617 4) (plus 362 2) "Zeta2 Scorpii"
    ∷ star (plus 2656217 4) (minus 390300 4) (plus 241 2) "Girtab"
    ∷ star (plus 2962437 4) (plus 451310 4) (plus 287 2) "Delta Cygni"
    ∷ star (plus 2926804 4) (plus 279597 4) (plus 308 2) "Albireo"
    ∷ star (plus 2988280 4) (plus 106133 4) (plus 272 2) "Tarazed"
    ∷ star (plus 2965647 4) (plus 64067 4) (plus 371 2) "Alshain"
    ∷ star (plus 2825199 4) (plus 333627 4) (plus 345 2) "Sheliak"
    ∷ star (plus 2847359 4) (plus 326896 4) (plus 324 2) "Sulafat"
    ∷ star (plus 1541719 4) (plus 234174 4) (plus 344 2) "Adhafera"
    ∷ star (plus 1481747 4) (plus 260071 4) (plus 388 2) "Rasalas"
    ∷ star (plus 1489548 4) (plus 237742 4) (plus 298 2) "Ras Elased Australis"
    ∷ star (plus 1684986 4) (plus 154295 4) (plus 334 2) "Chertan"
    ∷ star (plus 844125 4) (plus 211425 4) (plus 303 2) "Zeta Tauri"
    ∷ star (plus 601708 4) (plus 124903 4) (plus 347 2) "Lambda Tauri"
    ∷ star (plus 671542 4) (plus 191806 4) (plus 353 2) "Ain"
    ∷ star (plus 649500 4) (plus 156278 4) (plus 365 2) "Hyadum I"
    ∷ star (plus 657333 4) (plus 175425 4) (plus 376 2) "Hyadum II"
    ∷ star (plus 671667 4) (plus 158708 4) (plus 340 2) "Theta2 Tauri"
    ∷ star (plus 1100304 4) (plus 219825 4) (plus 353 2) "Wasat"
    ∷ star (plus 1009830 4) (plus 251311 4) (plus 306 2) "Mebsuta"
    ∷ star (plus 1027130 4) (plus 205704 4) (plus 379 2) "Mekbuda"
    ∷ star (plus 957404 4) (plus 225136 4) (plus 331 2) "Propus"
    ∷ star (plus 937181 4) (plus 225137 4) (plus 288 2) "Tejat"
    ∷ star (plus 956875 4) (minus 300631 4) (plus 302 2) "Furud"
    ∷ star (plus 1009829 4) (minus 238332 4) (plus 302 2) "Omicron2 Canis Majoris"
    ∷ star (plus 1117871 4) (plus 82893 4) (plus 290 2) "Gomeisa"
    ∷ star (plus 899302 4) (plus 372124 4) (plus 262 2) "Mahasim"
    ∷ star (plus 742377 4) (plus 331660 4) (plus 269 2) "Hassaleh"
    ∷ star (plus 784844 4) (plus 438232 4) (plus 299 2) "Almaaz"
    ∷ star (plus 756197 4) (plus 410757 4) (plus 375 2) "Saclateni"
    ∷ star (plus 585333 4) (plus 318836 4) (plus 285 2) "Zeta Persei"
    ∷ star (plus 596222 4) (plus 400100 4) (plus 289 2) "Epsilon Persei"
    ∷ star (plus 477876 4) (plus 535062 4) (plus 293 2) "Gamma Persei"
    ∷ star (plus 611671 4) (plus 477877 4) (plus 301 2) "Delta Persei"
    ∷ star (plus 123348 4) (plus 308611 4) (plus 328 2) "Delta Andromedae"
    ∷ star (plus 33086 4) (plus 151836 4) (plus 283 2) "Algenib"
    ∷ star (plus 3444123 4) (plus 108313 4) (plus 340 2) "Homam"
    ∷ star (plus 3401665 4) (plus 302213 4) (plus 294 2) "Matar"
    ∷ star (plus 3250501 4) (plus 61979 4) (plus 353 2) "Biham"
    ∷ star (plus 2212467 4) (plus 270742 4) (plus 235 2) "Izar"
    ∷ star (plus 2086714 4) (plus 183979 4) (plus 268 2) "Muphrid"
    ∷ star (plus 2180207 4) (plus 383082 4) (plus 303 2) "Seginus"
    ∷ star (plus 2247367 4) (plus 403906 4) (plus 350 2) "Nekkar"
    ∷ star (plus 2212506 4) (plus 333151 4) (plus 348 2) "Delta Bootis"
    ∷ star (plus 1776749 4) (plus 17644 4) (plus 360 2) "Zavijava"
    ∷ star (plus 1904152 4) (minus 14494 4) (plus 274 2) "Porrima"
    ∷ star (plus 1939007 4) (plus 33976 4) (plus 338 2) "Minelauva"
    ∷ star (plus 1955439 4) (plus 109591 4) (plus 283 2) "Vindemiatrix"
    ∷ star (plus 2016229 4) (minus 5959 4) (plus 337 2) "Heze"
    ∷ star (plus 2251706 4) (minus 252817 4) (plus 329 2) "Brachium"
    ∷ star (plus 2385511 4) (minus 46928 4) (plus 324 2) "Yed Posterior"
    ∷ star (plus 2492897 4) (minus 105672 4) (plus 256 2) "Zeta Ophiuchi"
    ∷ star (plus 3001798 4) (minus 298801 4) (plus 260 2) "Ascella"
    ∷ star (plus 2890989 4) (minus 269905 4) (plus 317 2) "Phi Sagittarii"
    ∷ star (plus 3267602 4) (minus 161273 4) (plus 287 2) "Deneb Algedi"
    ∷ star (plus 3052529 4) (minus 147814 4) (plus 305 2) "Dabih"
    ∷ star (plus 3228897 4) (minus 55711 4) (plus 287 2) "Sadalsuud"
    ∷ star (plus 3314451 4) (minus 3199 4) (plus 295 2) "Sadalmelik"
    ∷ star (plus 3431543 4) (minus 158207 4) (plus 327 2) "Skat"
    ∷ star (plus 2049719 4) (minus 534664 4) (plus 230 2) "Epsilon Centauri"
    ∷ star (plus 2100980 4) (minus 420996 4) (plus 231 2) "Eta Centauri"
    ∷ star (plus 1896472 4) (minus 472884 4) (plus 255 2) "Zeta Centauri"
    ∷ star (plus 1903717 4) (minus 507222 4) (plus 258 2) "Delta Centauri"
    ∷ star (plus 1399319 4) (minus 649856 4) (plus 292 2) "Upsilon Carinae"
    ∷ star (plus 1217987 4) (minus 243042 4) (plus 283 2) "Tureis"
    ∷ star (plus 1092857 4) (minus 370972 4) (plus 270 2) "Ahadi"
    ∷ star (plus 1874634 4) (minus 165153 4) (plus 294 2) "Algorab"
    ∷ star (plus 1837799 4) (minus 226202 4) (plus 300 2) "Minkar"
    ∷ star (plus 2110973 4) (plus 643758 4) (plus 365 2) "Thuban"
    ∷ star (plus 3548367 4) (plus 776320 4) (plus 321 2) "Errai"
    ∷ star (plus 849117 4) (minus 340742 4) (plus 265 2) "Phact"
    ∷ star (plus 890083 4) (minus 357683 4) (plus 312 2) "Wazn"
    ∷ star (plus 831827 4) (minus 178224 4) (plus 258 2) "Arneb"
    ∷ star (plus 820613 4) (minus 207594 4) (plus 281 2) "Nihal"
    ∷ star (plus 455699 4) (plus 40900 4) (plus 254 2) "Menkar"
    ∷ star (plus 769629 4) (minus 50862 4) (plus 279 2) "Cursa"
    ∷ star (plus 595072 4) (minus 135087 4) (plus 295 2) "Zaurak"
    ∷ star (plus 445652 4) (minus 403047 4) (plus 288 2) "Acamar"
    ∷ star (plus 1940068 4) (plus 383186 4) (plus 290 2) "Cor Caroli"
    ∷ star (plus 3093877 4) (plus 159121 4) (plus 377 2) "Sualocin"
    ∷ star (plus 3088006 4) (plus 145951 4) (plus 363 2) "Rotanev"
    ∷ []

unfoldable pub star_catalog : List Star
star_catalog = first_stars ++ other_stars
